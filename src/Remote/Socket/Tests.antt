-- ===== src/Remote/Socket/Tests.antt =====
-- A message over a socket that moves one byte a call.
use gpu_virtmem.Prelude.{
  ℕ, zero, suc, ◌≤◌, ◌≡◌, refl, sym, ◌⊎◌, List, [], ◌∷◌, ◌++◌, some, ℤ, pos, length, take, arith,
  true, append-nil,
}
use gpu_virtmem.Remote.Socket.{Socket, SocketLaws, moved, put, get}
use gpu_virtmem.Remote.Socket.Laws.{put_get_lem}

abbrev send_byte : List ℕ → List ℕ → ℤ × List ℕ
send_byte c [] = (pos 0, c)
send_byte c (b ∷ bs) = (pos 1, c ++ (b ∷ []))

abbrev recv_byte : List ℕ → ℕ → ℤ × List ℕ × List ℕ
recv_byte c zero = (pos 0, [], c)
recv_byte [] (suc n) = (pos 0, [], [])
recv_byte (b ∷ bs) (suc n) = (pos 1, b ∷ [], bs)

abbrev slow : Socket
slow = record { Conn = List ℕ; descriptor = λ c. pos 3; send = send_byte; recv = recv_byte }

send_byte-le : (c bs : List ℕ) → moved (send_byte c bs).0 ≤ length bs
send_byte-le c [] = omega arith
send_byte-le c (b ∷ bs) = omega arith

send_byte_lem : (c bs : List ℕ) → (send_byte c bs).1 ≡ c ++ take (moved (send_byte c bs).0) bs
send_byte_lem c [] = sym (append-nil c)
send_byte_lem c (b ∷ bs) = refl

recv_byte-le : (c : List ℕ) (n : ℕ) → moved (recv_byte c n).0 ≤ n
recv_byte-le c zero = omega arith
recv_byte-le [] (suc n) = omega arith
recv_byte-le (b ∷ bs) (suc n) = omega arith

length-recv_byte : (c : List ℕ) (n : ℕ) → length (recv_byte c n).1 ≡ moved (recv_byte c n).0
length-recv_byte c zero = refl
length-recv_byte [] (suc n) = refl
length-recv_byte (b ∷ bs) (suc n) = refl

recv_byte_lem : (c : List ℕ) (n : ℕ) → c ≡ (recv_byte c n).1 ++ (recv_byte c n).2
recv_byte_lem c zero = refl
recv_byte_lem [] (suc n) = refl
recv_byte_lem (b ∷ bs) (suc n) = refl

abbrev slow_laws : SocketLaws slow
slow_laws = record {
  transit = λ c. c;
  descriptor-send = λ c bs. refl;
  descriptor-recv = λ c n. refl;
  send-le = send_byte-le;
  transit-send = send_byte_lem;
  recv-le = recv_byte-le;
  length-recv = length-recv_byte;
  transit-recv = recv_byte_lem;
}

abbrev message : List ℕ
message = 7 ∷ 8 ∷ 9 ∷ []

put_get_lem_example :
    (r : ℤ) × (c₁ : List ℕ) × (put slow (some []) (some message) (pos 3) ≡ some (r, some c₁))
    × ((moved r ≡ 0)
        ⊎ ((r ≡ pos 1)
            × (q : ℤ) × (got : List ℕ) × (c₂ : List ℕ) × (get slow (some c₁) true (pos 3)
                ≡ some (q, got, some c₂))
            × ((moved q ≡ 0) ⊎ ((q ≡ pos 1) × (got ≡ message) × (c₂ ≡ [])))))
put_get_lem_example = put_get_lem slow slow_laws [] message refl refl
