-- ===== src/Timing/Storage/Select.antt =====
-- timing-core/src/ports/outbound/event_log.rs: the entries of a range of offsets.
use otk_core.Prelude.{
  ℕ, zero, suc, ◌+◌, ◌-◌, ◌≡◌, ◌≤◌, ◌<◌, refl, sym, ap, ◌∙◌, Bool, true, false, ◌&&◌, none, some,
  List, [], ◌∷◌, ◌++◌, ltb, leb, if◌then◌else◌, length, take, drop, get_elem?, arith, Bool-cases,
  inl, inr,
}

module _ {ℓ} {A : Type ℓ} where
  -- The members at the numbers that pass a test, where the first member has the number n.
  abbrev pub select : (ℕ → Bool) → ℕ → List A → List A
  select p n [] = []
  select p n (x ∷ xs) = let rest = select p (n + 1) xs in if p n then x ∷ rest else rest

  pub select-append :
      (p : ℕ → Bool) (n : ℕ) (xs ys : List A)
      → select p n (xs ++ ys) ≡ select p n xs ++ select p (n + length xs) ys
  select-append p n [] ys = let e : n ≡ n + 0 = omega arith in ap (λ k. select p k ys) e
  select-append p n (x ∷ xs) ys =
      let e : n + 1 + length xs ≡ n + suc (length xs) = omega arith in
      let ih = select-append p (n + 1) xs ys ∙ ap (λ k. select p (n + 1) xs ++ select p k ys) e in
      elim (Bool-cases (p n)) [ inl y ↦ rw y (ap (◌∷◌ x) ih) | inr y ↦ rw y ih ]

  pub select_ext :
      (p q : ℕ → Bool) (n : ℕ) (xs : List A)
      → ((i : ℕ) → n ≤ i → i < n + length xs → p i ≡ q i)
      → select p n xs ≡ select q n xs
  select_ext p q n [] h = refl
  select_ext p q n (x ∷ xs) h =
      let ih = select_ext p q (n + 1) xs (λ i a b. h i (omega arith) (omega arith)) in
      let here = h n (omega arith) (omega arith) in
      elim (Bool-cases (q n)) [ inl y ↦ rw (here, y) (ap (◌∷◌ x) ih) | inr y ↦ rw (here, y) ih ]

  pub select_none :
      (p : ℕ → Bool) (n : ℕ) (xs : List A)
      → ((i : ℕ) → n ≤ i → i < n + length xs → p i ≡ false)
      → select p n xs ≡ []
  select_none p n [] h = refl
  select_none p n (x ∷ xs) h =
      rw (h n (omega arith) (omega arith))
        (select_none p (n + 1) xs (λ i a b. h i (omega arith) (omega arith)))

abbrev pub in_range : ℕ → ℕ → ℕ → Bool
in_range from to n = leb from n && ltb n to

module _ {ℓ} {A : Type ℓ} where
  -- The first of a range, and the others.
  pub select-in_range-some :
      (n o j : ℕ) (xs : List A) {x : A}
      → n ≤ o
      → get_elem? xs (o - n) ≡ some x
      → select (in_range o (o + suc j)) n xs ≡ x ∷ select (in_range (o + 1) (o + 1 + j)) n xs
  select-in_range-some n o j [] h e = absurd (cc)
  select-in_range-some n o j (y ∷ ys) {x} h e = elim (Bool-cases (leb o n)) [
    | inl first ↦
        let same : o ≡ n = ground arith in
        let zero_index : o - n ≡ 0 = omega arith in
        let head : y ≡ x = ground (arith, ap (λ i. get_elem? (y ∷ ys) i) zero_index) in
        let here : in_range o (o + suc j) n ≡ true = ground arith in
        let there : in_range (o + 1) (o + 1 + j) n ≡ false = ground arith in
        let rest =
          select_ext (in_range o (o + suc j)) (in_range (o + 1) (o + 1 + j)) (n + 1) ys
            λ i a b. ground arith in
        rw (here, there, head) (ap (◌∷◌ x) rest)
    | inr later ↦
        let gt : n < o = ground arith in
        let index : o - n ≡ suc (o - (n + 1)) = omega arith in
        let further : get_elem? ys (o - (n + 1)) ≡ some x =
          sym (ap (λ i. get_elem? (y ∷ ys) i) index) ∙ e in
        let here : in_range o (o + suc j) n ≡ false = ground arith in
        let there : in_range (o + 1) (o + 1 + j) n ≡ false = ground arith in
        rw (here, there) (select-in_range-some (n + 1) o j ys (omega arith) further)
  ]

  pub select-in_range-none :
      (n o j : ℕ) (xs : List A)
      → n ≤ o
      → get_elem? xs (o - n) ≡ none
      → select (in_range o (o + j)) n xs ≡ []
  select-in_range-none n o j xs h e =
      select_none (in_range o (o + j)) n xs
        λ i a b. (let past = get_elem?_past xs (o - n) e in ground arith)
    where
      get_elem?_past : (ys : List A) (i : ℕ) → get_elem? ys i ≡ none → length ys ≤ i
      get_elem?_past [] i e = omega arith
      get_elem?_past (y ∷ ys) zero e = absurd (cc)
      get_elem?_past (y ∷ ys) (suc i) e = omega (arith, get_elem?_past ys i e)

  -- The members before a range do not count.
  pub select-drop :
      (k n m : ℕ) (p : ℕ → Bool) (xs : List A)
      → n + k ≡ m
      → ((i : ℕ) → n ≤ i → i < m → p i ≡ false)
      → select p n xs ≡ select p m (drop k xs)
  select-drop zero n m p xs e h = let same : n ≡ m = omega arith in ap (λ j. select p j xs) same
  select-drop (suc k) n m p [] e h = refl
  select-drop (suc k) n m p (x ∷ xs) e h =
      rw (h n (omega arith) (omega arith))
        (select-drop k (n + 1) m p xs (omega arith) (λ i a b. h i (omega arith) b))

  -- A range that ends with a number has the members below it.
  pub select-take :
      (k n : ℕ) (p : ℕ → Bool) (xs : List A)
      → ((i : ℕ) → n ≤ i → i < n + length xs → p i ≡ ltb i (n + k))
      → select p n xs ≡ take k xs
  select-take zero n p [] h = refl
  select-take (suc k) n p [] h = refl
  select-take zero n p (x ∷ xs) h =
      select_none p n (x ∷ xs) λ i a b. (let now = h i a b in ground arith)
  select-take (suc k) n p (x ∷ xs) h =
      let here : p n ≡ true = ground (arith, h n (omega arith) (omega arith)) in
      let later =
        select-take k (n + 1) p xs
          λ i a b. (let now = h i (omega arith) (omega arith) in ground arith) in
      rw here (ap (◌∷◌ x) later)
