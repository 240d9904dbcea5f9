-- ===== src/Calibration/Strata.antt =====
-- The strata: their sizes, and the grades of their members.
use free_weight.Base.{
  ℕ, ◌+◌, ◌≤◌, ◌==◌, ==_iff, leb, ◌≡◌, refl, inl, inr, Bool, true, false, ◌&&◌, String, str_eq,
  eq_refl, str_leb, List, [], ◌∷◌, length, length-append, count_if, any_of, All, All-append,
  insert_by, if◌then◌else◌, arith, Bool-cases,
}
use free_weight.Calibration.{Stratum, insert_item, sorted_items, add_sample, fill_strata, by_grade}

-- The sample was graded so.
abbrev pub is_graded : ℕ → List (String × ℕ) → String → Bool
is_graded grade graded id = any_of (λ (e : String × ℕ). str_eq e.0 id && e.1 == grade) graded

-- The size of the stratum of a grade.
abbrev pub size_at : ℕ → List Stratum → ℕ
size_at g [] = 0
size_at g (s ∷ ss) = if s.0 == g then length s.1 else size_at g ss

size_at-add :
    (g k : ℕ) (x : String) (ss : List Stratum)
    → size_at g (add_sample k x ss) ≡ size_at g ss + (if k == g then 1 else 0)
size_at-add g k x [] = ground arith
size_at-add g k x ((h, members) ∷ ss) = elim (Bool-cases (h == k)) [
  | inl e ↦
      let is : h ≡ k = (==_iff h k).0 e in
      rw e (rw is (ground (arith, length-append members (x ∷ []))))
  | inr e ↦ elim (Bool-cases (h == g)) [
    | inl f ↦
        let apart : (k == g) ≡ false = ground (arith, ==_iff h k, ==_iff h g, ==_iff k g) in
        rw (e, f, apart) (omega arith)
    | inr f ↦ rw (e, f) (size_at-add g k x ss)
  ]
]

pub size_at-fill :
    (g : ℕ) (items : List (String × ℕ)) (ss : List Stratum)
    → size_at g (fill_strata items ss)
      ≡ size_at g ss + count_if (λ (e : String × ℕ). e.1 == g) items
unfolding fill_strata
size_at-fill g [] ss = omega arith
size_at-fill g ((x, k) ∷ rest) ss =
    ground (arith, size_at-fill g rest (add_sample k x ss), size_at-add g k x ss)

-- There is a stratum of the grade with two samples or more.
abbrev pub is_large : ℕ → Stratum → Bool
is_large g s = s.0 == g && leb 2 (length s.1)

pub size_at-large : (g : ℕ) (ss : List Stratum) → 2 ≤ size_at g ss → any_of (is_large g) ss ≡ true
size_at-large g [] h = absurd (omega arith)
size_at-large g (s ∷ ss) h = elim (Bool-cases (s.0 == g)) [
  | inl e ↦ let big = rw e at h in rw e (ground arith)
  | inr e ↦ rw e (size_at-large g ss (rw e at h))
]

any_of-insert :
    (p : Stratum → Bool) (s : Stratum) (ss : List Stratum)
    → any_of p (s ∷ ss) ≡ true
    → any_of p (insert_by (λ (t : Stratum). t.0) s ss) ≡ true
any_of-insert p s [] h = h
any_of-insert p s (t ∷ ts) h = elim (Bool-cases (leb s.0 t.0)) [
  | inl e ↦ rw e h
  | inr e ↦ rw e (elim (Bool-cases (p t)) [
    | inl f ↦ rw f refl
    | inr f ↦ rw f (any_of-insert p s ts (ground arith))
  ])
]

pub any_of-by_grade :
    (p : Stratum → Bool) (ss : List Stratum) → any_of p ss ≡ true → any_of p (by_grade ss) ≡ true
any_of-by_grade p [] h = h
any_of-by_grade p (s ∷ ss) h = any_of-insert p s (by_grade ss) (elim (Bool-cases (p s)) [
  | inl e ↦ rw e refl
  | inr e ↦ rw e (any_of-by_grade p ss (rw e at h))
])

module _ (graded : List (String × ℕ)) where
  -- The members of a stratum were graded so.
  abbrev pub IsGraded : Stratum → Type 0
  IsGraded s = All (λ id. is_graded s.0 graded id ≡ true) s.1

  add_sample-IsGraded :
      (k : ℕ) (x : String) (ss : List Stratum)
      → is_graded k graded x ≡ true
      → All IsGraded ss
      → All IsGraded (add_sample k x ss)
  add_sample-IsGraded k x [] h hs = ((h, tt), tt)
  add_sample-IsGraded k x ((g, members) ∷ ss) h hs = elim (Bool-cases (g == k)) [
    | inl e ↦
        let is : g ≡ k = (==_iff g k).0 e in
        let h' : is_graded g graded x ≡ true = rw is h in
        rw e (All-append _ members (x ∷ []) hs.0 (h', tt), hs.1)
    | inr e ↦ rw e (hs.0, add_sample-IsGraded k x ss h hs.1)
  ]

  abbrev pub WasGraded : String × ℕ → Type 0
  WasGraded e = is_graded e.1 graded e.0 ≡ true

  pub fill_strata-IsGraded :
      (items : List (String × ℕ)) (ss : List Stratum)
      → All WasGraded items
      → All IsGraded ss
      → All IsGraded (fill_strata items ss)
  unfolding fill_strata
  fill_strata-IsGraded [] ss h hs = hs
  fill_strata-IsGraded ((x, k) ∷ rest) ss h hs =
      fill_strata-IsGraded rest (add_sample k x ss) h.1 (add_sample-IsGraded k x ss h.0 hs)

  insert_item-WasGraded :
      (e : String × ℕ) (es : List (String × ℕ))
      → WasGraded e
      → All WasGraded es
      → All WasGraded (insert_item e es)
  insert_item-WasGraded e [] h hs = (h, tt)
  insert_item-WasGraded e (d ∷ ds) h hs = elim (Bool-cases (str_leb e.0 d.0)) [
    | inl f ↦ rw f (h, hs)
    | inr f ↦ rw f (hs.0, insert_item-WasGraded e ds h hs.1)
  ]

  pub sorted_items-WasGraded :
      (es : List (String × ℕ)) → All WasGraded es → All WasGraded (sorted_items es)
  sorted_items-WasGraded [] h = tt
  sorted_items-WasGraded (e ∷ es) h =
      insert_item-WasGraded e (sorted_items es) h.0 (sorted_items-WasGraded es h.1)

one_more :
    (e : String × ℕ) (graded es : List (String × ℕ))
    → All (WasGraded graded) es
    → All (WasGraded (e ∷ graded)) es
one_more e graded [] h = tt
one_more e graded (d ∷ ds) h = (rw h.0 (ground arith), one_more e graded ds h.1)

pub each-WasGraded : (graded : List (String × ℕ)) → All (WasGraded graded) graded
each-WasGraded [] = tt
each-WasGraded (e ∷ es) = (rw (eq_refl e.0) (ground arith), one_more e es es (each-WasGraded es))
