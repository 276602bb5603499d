-- ===== src/Remote/Socket/Laws.antt =====
-- remote/connection.c: what `put` and `get` move, however the socket splits it.
use gpu_virtmem.Prelude.{
  ℕ, zero, suc, ◌+◌, ◌-◌, ◌≤◌, ◌<◌, ◌≡◌, refl, sym, ap, ◌∙◌, ◌⊎◌, inl, inr, true, false, List, [],
  ◌∷◌, ◌++◌, some, ℤ, pos, negsuc, length, take, drop, arith, take-take_le, take-add_drop,
  take-append-drop, take-length, append_assoc, append-nil, ℤ-cases, length-take, length-drop,
  length-append,
}
use gpu_virtmem.Remote.Socket.{
  Socket, SocketLaws, moved, chunk, is_invalid, put_loop, put, get_loop, get,
}

append-split : (xs ys zs : List ℕ) → length xs ≡ length ys → xs ++ zs ≡ ys → (xs ≡ ys) × (zs ≡ [])
append-split [] [] zs h e = (refl, e)
append-split [] (y ∷ ys) zs h e = absurd (omega arith)
append-split (x ∷ xs) [] zs h e = absurd (omega arith)
append-split (x ∷ xs) (y ∷ ys) zs h e =
    let (u, v) = append-split xs ys zs (omega arith) (ground (arith, e)) in
    (ground (arith, e, u), v)

chunk-le : (n : ℕ) → chunk n ≤ n
chunk-le n = ground arith

module _ (s : Socket) (laws : SocketLaws s) where
  open laws use {
    transit, descriptor-send, send-le, transit-send, recv-le, length-recv, transit-recv,
  }

  -- What `put` leaves: all that was asked for, or a part of it and a result that is not above zero.
  pub data PutResult (c : s.Conn) (bs : List ℕ) (r : ℤ) (c' : s.Conn) : Type 0 where
    all_put : r ≡ pos 1 → transit c' ≡ transit c ++ bs → PutResult c bs r c'
    part_put :
        (k : ℕ)
        → moved r ≡ 0
        → k < length bs
        → transit c' ≡ transit c ++ take k bs
        → PutResult c bs r c'

  transit-send_chunk :
      (c : s.Conn) (b : ℕ) (bs : List ℕ) (n : ℕ)
      → moved (s.send c (take (chunk n) bs)).0 ≡ b
      → (transit (s.send c (take (chunk n) bs)).1 ≡ transit c ++ take b bs)
        × (b ≤ chunk n)
        × (b ≤ length bs)
  transit-send_chunk c b bs n e =
      let h = send-le c (take (chunk n) bs) in
      let l = length-take (chunk n) bs in
      let k : b ≤ chunk n = omega (arith, h, l, e) in
      (
        transit-send c (take (chunk n) bs)
            ∙ ap (λ m. transit c ++ take m (take (chunk n) bs)) e
            ∙ ap (λ l. transit c ++ l) (take-take_le b (chunk n) bs k),
        k,
        omega (arith, h, l, e),
      )

  PutResult-more :
      (c c₁ c₂ : s.Conn) (bs : List ℕ) (k : ℕ) (r : ℤ)
      → transit c₁ ≡ transit c ++ take k bs
      → k ≤ length bs
      → PutResult c₁ (drop k bs) r c₂
      → PutResult c bs r c₂
  PutResult-more c c₁ c₂ bs k r e h (all_put i j) = all_put i (
      j
      ∙ ap (λ l. l ++ drop k bs) e
      ∙ append_assoc (transit c) (take k bs) (drop k bs)
      ∙ ap (λ l. transit c ++ l) (take-append-drop k bs))
  PutResult-more c c₁ c₂ bs k r e h (part_put m i l j) =
      part_put (k + m) i (omega (arith, l, length-drop k bs)) (
        j
        ∙ ap (λ l. l ++ take m (drop k bs)) e
        ∙ append_assoc (transit c) (take k bs) (take m (drop k bs))
        ∙ ap (λ l. transit c ++ l) (sym (take-add_drop k m bs)))

  put_loop_lem :
      (fuel : ℕ) (c : s.Conn) (bs : List ℕ)
      → length bs ≤ fuel
      → (r : ℤ) × (c' : s.Conn) × (put_loop s fuel c bs ≡ some (r, c'))
        × (s.descriptor c' ≡ s.descriptor c)
        × PutResult c bs r c'
  unfolding put_loop
  put_loop_lem fuel c [] h = (pos 1, c, refl, refl, all_put refl (sym (append-nil _)))
  put_loop_lem zero c (b ∷ bs) h = absurd (omega arith)
  put_loop_lem (suc fuel) c (b ∷ bs) h =
      let n : ℕ = length (b ∷ bs) in
      let call : ℤ × s.Conn = s.send c (take (chunk n) (b ∷ bs)) in
      let d : s.descriptor call.1 ≡ s.descriptor c = descriptor-send c (take (chunk n) (b ∷ bs)) in
      elim (ℤ-cases call.0) [
        | inl (k, e) ↦
            let (sent, u, v) = transit-send_chunk c (suc k) (b ∷ bs) n (ap moved e) in
            let (r, c', f, g, p) =
              put_loop_lem fuel call.1 (drop (suc k) (b ∷ bs))
                (omega (arith, length-drop (suc k) (b ∷ bs))) in
            (
              r,
              c',
              ground (arith, e, f),
              g ∙ d,
              PutResult-more c call.1 c' (b ∷ bs) (suc k) r sent v p,
            )
        | inr (inl e) ↦
            let (sent, u, v) = transit-send_chunk c 0 (b ∷ bs) n (ap moved e) in
            (pos 0, call.1, ground (arith, e), d, part_put 0 refl (omega arith) sent)
        | inr (inr (k, e)) ↦
            let (sent, u, v) = transit-send_chunk c 0 (b ∷ bs) n (ap moved e) in
            (negsuc k, call.1, ground (arith, e), d, part_put 0 refl (omega arith) sent)
      ]

  -- What `get` leaves: the bytes that it was asked for, or a result that is not above zero.
  pub data GetResult (c : s.Conn) (n : ℕ) (r : ℤ) (got : List ℕ) (c' : s.Conn) : Type 0 where
    all_got : r ≡ pos 1 → length got ≡ n → transit c ≡ got ++ transit c' → GetResult c n r got c'
    part_got : moved r ≡ 0 → GetResult c n r got c'

  recv_chunk :
      (c : s.Conn) (k n : ℕ)
      → moved (s.recv c (chunk n)).0 ≡ k
      → (k ≤ n) × (length (s.recv c (chunk n)).1 ≡ k)
  recv_chunk c k n e =
      let h = recv-le c (chunk n) in
      let l = length-recv c (chunk n) in (omega (arith, h, e, chunk-le n), l ∙ e)

  get_loop_lem :
      (fuel : ℕ) (c : s.Conn) (n : ℕ)
      → n ≤ fuel
      → (r : ℤ) × (got : List ℕ) × (c' : s.Conn) × (get_loop s fuel c n ≡ some (r, got, c'))
        × GetResult c n r got c'
  unfolding get_loop
  get_loop_lem fuel c zero h = (pos 1, [], c, refl, all_got refl refl refl)
  get_loop_lem zero c (suc n) h = absurd (omega arith)
  get_loop_lem (suc fuel) c (suc n) h =
      let call : ℤ × List ℕ × s.Conn = s.recv c (chunk (suc n)) in
      elim (ℤ-cases call.0) [
        | inl (k, e) ↦
            let (u, v) = recv_chunk c (suc k) (suc n) (ap moved e) in
            let (r, got, c', f, p) = get_loop_lem fuel call.2 (suc n - suc k) (omega arith) in
            let whole : GetResult c (suc n) r (call.1 ++ got) c' = elim p [
              | all_got i l j ↦ all_got i (omega (arith, length-append call.1 got, v, l, u)) (
                  transit-recv c (chunk (suc n))
                  ∙ ap (λ l. call.1 ++ l) j
                  ∙ sym (append_assoc call.1 got (transit c')))
              | part_got i ↦ part_got i
            ] in
            (r, call.1 ++ got, c', ground (arith, e, f), whole)
        | inr (inl e) ↦ (pos 0, [], call.2, ground (arith, e), part_got refl)
        | inr (inr (k, e)) ↦ (negsuc k, [], call.2, ground (arith, e), part_got refl)
      ]

  -- `put` and `get` carry a message whole, however the socket splits it: on an open connection with
  -- nothing on its way, `put` of the message ends, with 1 or with a result that is not above zero.
  -- After 1, `get` of as many bytes ends, with a result that is not above zero, or with 1, and then
  -- it has the message and nothing is left on its way.
  pub put_get_lem :
      (c : s.Conn) (bs : List ℕ)
      → is_invalid (s.descriptor c) ≡ false
      → transit c ≡ []
      → (r : ℤ) × (c₁ : s.Conn) × (put s (some c) (some bs) (pos (length bs)) ≡ some (r, some c₁))
        × ((moved r ≡ 0)
            ⊎ ((r ≡ pos 1)
                × (q : ℤ) × (got : List ℕ) × (c₂ : s.Conn) × (get s (some c₁) true (pos (length bs))
                    ≡ some (q, got, some c₂))
                × ((moved q ≡ 0) ⊎ ((q ≡ pos 1) × (got ≡ bs) × (transit c₂ ≡ [])))))
  unfolding put get
  put_get_lem c bs valid empty =
      let n : ℕ = length bs in
      let (r, c₁, e, d, p) = put_loop_lem n c bs (omega arith) in
      let whole : put s (some c) (some bs) (pos n) ≡ some (r, some c₁) =
        ground (arith, valid, ap (λ l. put_loop s n c l) (take-length bs), e) in
      (
        r,
        c₁,
        whole,
        elim p [
          | part_put k i l j ↦ inl i
          | all_put i j ↦
              let (q, got, c₂, f, g) = get_loop_lem n c₁ n (omega arith) in
              let there : transit c₁ ≡ bs = j ∙ ap (λ l. l ++ bs) empty in
              inr (
                i,
                q,
                got,
                c₂,
                ground (arith, valid, ap is_invalid d, f),
                elim g [
                  | part_got m ↦ inl m
                  | all_got m l t ↦
                      let (u, v) = append-split got bs (transit c₂) l (sym t ∙ there) in
                      inr (m, u, v)
                ],
              )
        ],
      )
