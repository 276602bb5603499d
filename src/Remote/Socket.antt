-- ===== src/Remote/Socket.antt =====
-- remote/connection.c, `put` and `get`: the loops around `send` and `recv` of a socket. The socket is a
-- parameter; `SocketLaws` states what POSIX documents of it.
pub mod Laws
mod Tests
use gpu_virtmem.Prelude.{
  ℕ, zero, suc, ◌-◌, ◌≤◌, ◌≡◌, Bool, true, false, List, [], ◌∷◌, ◌++◌, Option, none, some, ◌>>=◌, ℤ,
  pos, negsuc, length, take, drop, ltb, leb, if◌then◌else◌,
}

-- A connection and the network behind it: its descriptor, and the calls `send` and `recv` with the
-- result, what was received, and what is left.
pub record Socket : Type 1 where
  pub Conn : Type 0
  pub descriptor : Conn → ℤ
  pub send : Conn → List ℕ → ℤ × Conn
  pub recv : Conn → ℕ → ℤ × List ℕ × Conn

-- How many bytes a call with this result has moved.
abbrev pub moved : ℤ → ℕ
moved (pos n) = n
moved (negsuc n) = 0

-- `transit c` are the bytes that were sent and not yet received, in their order: a call moves a part
-- of what it was asked to, from the front, and no other byte.
pub record SocketLaws (s : Socket) : Type 1 where
  pub transit : s.Conn → List ℕ
  pub descriptor-send : (c : s.Conn) (bs : List ℕ) → s.descriptor (s.send c bs).1 ≡ s.descriptor c
  pub descriptor-recv : (c : s.Conn) (n : ℕ) → s.descriptor (s.recv c n).2 ≡ s.descriptor c
  pub send-le : (c : s.Conn) (bs : List ℕ) → moved (s.send c bs).0 ≤ length bs
  pub transit-send :
      (c : s.Conn) (bs : List ℕ)
      → transit (s.send c bs).1 ≡ transit c ++ take (moved (s.send c bs).0) bs
  pub recv-le : (c : s.Conn) (n : ℕ) → moved (s.recv c n).0 ≤ n
  pub length-recv : (c : s.Conn) (n : ℕ) → length (s.recv c n).1 ≡ moved (s.recv c n).0
  pub transit-recv : (c : s.Conn) (n : ℕ) → transit c ≡ (s.recv c n).1 ++ transit (s.recv c n).2

-- `PER_XFER_MAX`
abbrev pub per_xfer_max : ℕ
per_xfer_max = 1024

-- `-EINVAL`
abbrev pub minus_einval : ℤ
minus_einval = negsuc 21

-- `remain > PER_XFER_MAX ? PER_XFER_MAX : remain`
abbrev pub chunk : ℕ → ℕ
chunk remain = if ltb per_xfer_max remain then per_xfer_max else remain

abbrev pub is_invalid : ℤ → Bool
is_invalid (pos n) = false
is_invalid (negsuc n) = true

module _ (s : Socket) where
  -- The loop of `put` with the bytes that remain; `none` if the fuel is used up.
  unfoldable pub put_loop : ℕ → s.Conn → List ℕ → Option (ℤ × s.Conn)
  put_loop fuel c [] = some (pos 1, c)
  put_loop zero c (b ∷ bs) = none
  put_loop (suc fuel) c (b ∷ bs) =
      let r : ℤ × s.Conn = s.send c (take (chunk (length (b ∷ bs))) (b ∷ bs)) in
      elim r.0 [
        | negsuc n ↦ some (negsuc n, r.1)
        | pos n ↦ elim n [
          | zero ↦ some (pos 0, r.1)
          | suc k ↦ put_loop fuel r.1 (drop (suc k) (b ∷ bs))
        ]
      ]

  -- `put`, where a buffer shorter than `len` would be read behind its end.
  pub put : Option s.Conn → Option (List ℕ) → ℤ → Option (ℤ × Option s.Conn)
  put none msg len = some (minus_einval, none)
  put (some c) none len = some (minus_einval, some c)
  put (some c) (some bs) (negsuc k) = some (minus_einval, some c)
  put (some c) (some bs) (pos n) =
      if is_invalid (s.descriptor c)
      then some (minus_einval, some c)
      else if leb n (length bs)
      then put_loop n c (take n bs) >>= (λ r. some (r.0, some r.1))
      else none

  -- The loop of `get` with the number of bytes that remain, and what it writes.
  unfoldable pub get_loop : ℕ → s.Conn → ℕ → Option (ℤ × List ℕ × s.Conn)
  get_loop fuel c zero = some (pos 1, [], c)
  get_loop zero c (suc n) = none
  get_loop (suc fuel) c (suc n) =
      let r : ℤ × List ℕ × s.Conn = s.recv c (chunk (suc n)) in
      elim r.0 [
        | negsuc k ↦ some (negsuc k, [], r.2)
        | pos k ↦ elim k [
          | zero ↦ some (pos 0, [], r.2)
          | suc j ↦ get_loop fuel r.2 (suc n - suc j) >>= (λ t. some (t.0, r.1 ++ t.1, t.2))
        ]
      ]

  -- `get` into a buffer of `len` bytes.
  pub get : Option s.Conn → Bool → ℤ → Option (ℤ × List ℕ × Option s.Conn)
  get none msg len = some (minus_einval, [], none)
  get (some c) false len = some (minus_einval, [], some c)
  get (some c) true (negsuc k) = some (minus_einval, [], some c)
  get (some c) true (pos n) =
      if is_invalid (s.descriptor c)
      then some (minus_einval, [], some c)
      else get_loop n c n >>= (λ r. some (r.0, r.1, some r.2))
