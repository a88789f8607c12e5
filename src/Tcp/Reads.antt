-- ===== src/Tcp/Reads.antt =====
-- Reading from a list of pbufs, as lib/pico/lwip.tcp.c does, is reading from the stream of bytes that
-- they cut.
use micro_lua.Base.{
  ℕ, zero, suc, ◌+◌, ◌-◌, ◌≤◌, ◌<◌, ◌≡◌, refl, sym, ap, ◌∙◌, inl, inr, List, [], ◌∷◌, ◌++◌, arith,
  ◌==◌, if◌then◌else◌, length, take, drop, min, Bool-cases, cons_ap,
}

-- The bytes of a list of pbufs.
abbrev pub flatten : List (List ℕ) → List ℕ
flatten [] = []
flatten (p ∷ ps) = p ++ flatten ps

-- The loop of `recv_loop` on the payloads of the pbufs.
pub record ListTaken : Type 0 where
  pub bytes : List ℕ
  pub rest : List (List ℕ)
  pub off : ℕ

abbrev pub take_list : (len off : ℕ) → List (List ℕ) → ListTaken
take_list len off [] = record { bytes = []; rest = []; off = off }
take_list len off (p ∷ h) =
    let sz = min len (length p - off) in
    let next = take_list (len - sz) 0 h in
    if len == 0
    then record { bytes = []; rest = p ∷ h; off = off }
    else if off + sz == length p
    then record { bytes = take sz (drop off p) ++ next.bytes; rest = next.rest; off = next.off }
    else record { bytes = take sz (drop off p); rest = p ∷ h; off = off + sz }

-- The bytes that were received and not yet read.
abbrev pub pending : ℕ → List (List ℕ) → List ℕ
pending off h = drop off (flatten h)

-- No pbuf is empty, and the offset lies in the first one.
abbrev pub IsChain : List (List ℕ) → Type 0
IsChain [] = Unit
IsChain (p ∷ h) = (0 < length p) × IsChain h

abbrev pub IsInside : ℕ → List (List ℕ) → Type 0
IsInside off [] = off ≡ 0
IsInside off (p ∷ h) = off < length p

take_none : (n : ℕ) → take {A = ℕ} n [] ≡ []
take_none zero = refl
take_none (suc n) = refl

drop_none : (n : ℕ) → drop {A = ℕ} n [] ≡ []
drop_none zero = refl
drop_none (suc n) = refl

take_all :
    (xs ys : List ℕ) (n : ℕ) → length xs ≤ n → take n (xs ++ ys) ≡ xs ++ take (n - length xs) ys
take_all [] ys n h = ap (λ k. take k ys) (omega arith)
take_all (x ∷ xs) ys zero h = absurd (omega arith)
take_all (x ∷ xs) ys (suc n) h =
    let e : n - length xs ≡ suc n - suc (length xs) = omega arith in
    cons_ap refl (take_all xs ys n (omega arith) ∙ ap (λ k. xs ++ take k ys) e)

drop_all : (xs ys : List ℕ) (n : ℕ) → length xs ≤ n → drop n (xs ++ ys) ≡ drop (n - length xs) ys
drop_all [] ys n h = ap (λ k. drop k ys) (omega arith)
drop_all (x ∷ xs) ys zero h = absurd (omega arith)
drop_all (x ∷ xs) ys (suc n) h =
    let e : n - length xs ≡ suc n - suc (length xs) = omega arith in
    drop_all xs ys n (omega arith) ∙ ap (λ k. drop k ys) e

take_part : (xs ys : List ℕ) (n : ℕ) → n ≤ length xs → take n (xs ++ ys) ≡ take n xs
take_part xs ys zero h = refl
take_part [] ys (suc n) h = absurd (omega arith)
take_part (x ∷ xs) ys (suc n) h = cons_ap refl (take_part xs ys n (omega arith))

pub drop_part : (xs ys : List ℕ) (n : ℕ) → n ≤ length xs → drop n (xs ++ ys) ≡ drop n xs ++ ys
drop_part xs ys zero h = refl
drop_part [] ys (suc n) h = absurd (omega arith)
drop_part (x ∷ xs) ys (suc n) h = drop_part xs ys n (omega arith)

drop_sum : (xs : List ℕ) (a b : ℕ) → drop (a + b) xs ≡ drop b (drop a xs)
drop_sum xs zero b = let e : 0 + b ≡ b = omega arith in ap (λ k. drop k xs) e
drop_sum [] (suc a) b = drop_none (suc a + b) ∙ sym (drop_none b)
drop_sum (x ∷ xs) (suc a) b =
    let e : suc a + b ≡ suc (a + b) = omega arith in ap (λ k. drop k (x ∷ xs)) e ∙ drop_sum xs a b

length-drop : (xs : List ℕ) (n : ℕ) → length (drop n xs) ≡ length xs - n
length-drop xs zero = omega arith
length-drop [] (suc n) = omega arith
length-drop (x ∷ xs) (suc n) = length-drop xs n ∙ omega arith

take_whole : (xs : List ℕ) (n : ℕ) → length xs ≡ n → take n xs ≡ xs
take_whole [] zero h = refl
take_whole [] (suc n) h = absurd (omega arith)
take_whole (x ∷ xs) zero h = absurd (omega arith)
take_whole (x ∷ xs) (suc n) h = cons_ap refl (take_whole xs n (omega arith))

pub record Read (len : ℕ) (stream : List ℕ) (t : ListTaken) : Type 0 where
  pub bytes : t.bytes ≡ take len stream
  pub left : pending t.off t.rest ≡ drop len stream
  pub inside : IsInside t.off t.rest
  pub chain : IsChain t.rest

pub first-IsInside : (h : List (List ℕ)) → IsChain h → IsInside 0 h
first-IsInside [] c = refl
first-IsInside (p ∷ h) c = c.0

pub take_list_lem :
    (len off : ℕ) (h : List (List ℕ))
    → IsInside off h
    → IsChain h
    → Read len (pending off h) (take_list len off h)
take_list_lem len off [] i c = record {
  bytes = sym (ap (take len) (drop_none off) ∙ take_none len);
  left = drop_none off ∙ sym (ap (drop len) (drop_none off) ∙ drop_none len);
  inside = i;
  chain = tt;
}
take_list_lem len off (p ∷ h) i c =
    let sz = min len (length p - off) in
    let q = drop off p in
    let size = length-drop p off in
    let cut = drop_part p (flatten h) off (omega arith) in
    elim (Bool-cases (len == 0)) [
      | inl e ↦
          (let none_wanted : len ≡ 0 = ground arith in
            rw (e, none_wanted) record { bytes = refl; left = refl; inside = i; chain = c })
      | inr e ↦ elim (Bool-cases (off + sz == length p)) [
        | inl whole ↦
            (let all : length q ≡ sz = ground (arith, size) in
              let le : length q ≤ len = ground (arith, size) in
              let next = take_list_lem (len - sz) 0 h (first-IsInside h c.1) c.1 in
              rw (e, whole)
                record {
                  bytes =
                      ap (λ x. x ++ (take_list (len - sz) 0 h).bytes) (take_whole q sz all)
                      ∙ ap (λ x. q ++ x) next.bytes
                      ∙ ap (λ k. q ++ take (len - k) (flatten h)) (sym all)
                      ∙ sym (ap (take len) cut ∙ take_all q (flatten h) len le);
                  left =
                      next.left
                      ∙ ap (λ k. drop (len - k) (flatten h)) (sym all)
                      ∙ sym (ap (drop len) cut ∙ drop_all q (flatten h) len le);
                  inside = next.inside;
                  chain = next.chain;
                })
        | inr part ↦
            (let same : sz ≡ len = ground arith in
              let le : len ≤ length q = ground (arith, size) in
              rw (e, part)
                record {
                  bytes =
                      ap (λ k. take k q) same
                      ∙ sym (ap (take len) cut ∙ take_part q (flatten h) len le);
                  left =
                      ap (λ k. drop (off + k) (p ++ flatten h)) same
                      ∙ drop_sum (p ++ flatten h) off len;
                  inside = ground arith;
                  chain = c;
                })
      ]
    ]
