-- ===== src/Interposer/Bytes.antt =====
-- The bytes of a packet: words in the byte order of the machine, and pointers that a call passes.
use gpu_virtmem.Prelude.{
  ℕ, zero, suc, ◌+◌, ◌*◌, ◌/◌, ◌%◌, ◌^◌, ◌<◌, ◌≡◌, refl, ap, List, [], ◌∷◌, ◌++◌, Option, none,
  some, ◌>>=◌, length, drop, arith, drop_append_of_length,
}

-- A pointer that is NULL, or an address with what is found there.
pub data Ptr (A : Type 0) : Type 0 where
  null : Ptr A
  at : ℕ → A → Ptr A

abbrev pub address : {A : Type 0} → Ptr A → ℕ
address null = 0
address (at a x) = a

-- The low `k` bytes of a number, the lowest first.
unfoldable pub le : ℕ → ℕ → List ℕ
le zero v = []
le (suc k) v = v % 256 ∷ le k (v / 256)

-- The number that the first `k` bytes stand for; `none` is a read behind the packet.
pub un_le : ℕ → List ℕ → Option ℕ
un_le zero bs = some 0
un_le (suc k) [] = none
un_le (suc k) (b ∷ bs) = un_le k bs >>= (λ v. some (b + 256 * v))

pub length-le : (k v : ℕ) → length (le k v) ≡ k
unfolding le
length-le zero v = refl
length-le (suc k) v = ap suc (length-le k (v / 256))

byte_fits : (v n : ℕ) → v < 256 * n → v / 256 < n
byte_fits v n h = omega arith

pub un_le-le : (k v : ℕ) (rest : List ℕ) → v < 256 ^ k → un_le k (le k v ++ rest) ≡ some v
unfolding le un_le
un_le-le zero v rest h = ground arith
un_le-le (suc k) v rest h =
    ground (arith, un_le-le k (v / 256) rest (byte_fits v (256 ^ k) (omega (arith, h))))

pub drop-le : (k v : ℕ) (rest : List ℕ) → drop k (le k v ++ rest) ≡ rest
drop-le k v rest = drop_append_of_length k (le k v) rest (length-le k v)
