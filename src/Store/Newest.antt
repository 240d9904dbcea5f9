-- ===== src/Store/Newest.antt =====
-- The order of a listing, and that filtering keeps it.
use free_weight.Base.{
  ℕ, ◌≡◌, refl, ap, sym, ◌∙◌, inl, inr, Bool, true, false, String, str_eq, eq_iff, List, [], ◌∷◌,
  keep_if, All, All-keep_if, text_lt_trans, text_lt_irrefl, text_lt_total, arith, Bool-cases,
}
use free_weight.Store.Rows.{Run}
use free_weight.Store.Keyed.{IsAbsent, IsKeyed}
use free_weight.Store.Listing.{comes_after, cursor_of, insert_newest, newest_first}

-- Each run is listed before those that come after it.
abbrev pub IsListed : List Run → Type 0
IsListed [] = Unit
IsListed (r ∷ rs) = All (λ s. comes_after (cursor_of r) s ≡ true) rs × IsListed rs

pub comes_after_trans :
    (c : ℕ × String) (s t : Run)
    → comes_after c s ≡ true
    → comes_after (cursor_of s) t ≡ true
    → comes_after c t ≡ true
comes_after_trans (n, id) s t h k = ground (arith, text_lt_trans t.id s.id id)

pub comes_after_irrefl : (r : Run) → comes_after (cursor_of r) r ≡ false
comes_after_irrefl r = ground (arith, text_lt_irrefl r.id)

pub comes_after_asymm :
    (r s : Run) → comes_after (cursor_of r) s ≡ true → comes_after (cursor_of s) r ≡ false
comes_after_asymm r s h = elim (Bool-cases (comes_after (cursor_of s) r)) [
  | inr e ↦ e
  | inl e ↦
      absurd (let q = comes_after_trans (cursor_of r) s r h e in let i = comes_after_irrefl r in cc)
]

comes_after_total :
    (r s : Run)
    → str_eq s.id r.id ≡ false
    → comes_after (cursor_of r) s ≡ false
    → comes_after (cursor_of s) r ≡ true
comes_after_total r s apart h = elim (text_lt_total r.id s.id) [
  | inl e ↦ absurd (let q : str_eq s.id r.id ≡ true = (eq_iff s.id r.id).1 (sym e) in cc)
  | inr o ↦ elim o [ inl e ↦ ground (arith, e) | inr e ↦ ground (arith, e) ]
]

insert_newest-All :
    (P : Run → Type 0) (r : Run) (ss : List Run) → P r → All P ss → All P (insert_newest r ss)
insert_newest-All P r [] h hs = (h, tt)
insert_newest-All P r (s ∷ ss) h hs = elim (Bool-cases (comes_after (cursor_of r) s)) [
  | inl e ↦ rw e (h, hs)
  | inr e ↦ rw e (hs.0, insert_newest-All P r ss h hs.1)
]

newest_first-All : (P : Run → Type 0) (rs : List Run) → All P rs → All P (newest_first rs)
newest_first-All P [] h = tt
newest_first-All P (r ∷ rs) h =
    insert_newest-All P r (newest_first rs) h.0 (newest_first-All P rs h.1)

All-after :
    (r s : Run) (ss : List Run)
    → comes_after (cursor_of r) s ≡ true
    → All (λ t. comes_after (cursor_of s) t ≡ true) ss
    → All (λ t. comes_after (cursor_of r) t ≡ true) ss
All-after r s [] h hs = tt
All-after r s (t ∷ ts) h hs = (comes_after_trans (cursor_of r) s t h hs.0, All-after r s ts h hs.1)

insert_newest-IsListed :
    (r : Run) (ss : List Run) → IsAbsent r.id ss → IsListed ss → IsListed (insert_newest r ss)
insert_newest-IsListed r [] a h = (tt, tt)
insert_newest-IsListed r (s ∷ ss) a h = elim (Bool-cases (comes_after (cursor_of r) s)) [
  | inl e ↦ rw e ((e, All-after r s ss e h.0), h)
  | inr e ↦
      let back = comes_after_total r s a.0 e in
      rw e (
        insert_newest-All (λ t. comes_after (cursor_of s) t ≡ true) r ss back h.0,
        insert_newest-IsListed r ss a.1 h.1,
      )
]

pub newest_first-IsListed : (rs : List Run) → IsKeyed rs → IsListed (newest_first rs)
newest_first-IsListed [] h = tt
newest_first-IsListed (r ∷ rs) h =
    insert_newest-IsListed r (newest_first rs)
      (newest_first-All (λ s. str_eq s.id r.id ≡ false) rs h.0) (newest_first-IsListed rs h.1)

pub keep_if-IsKeyed : (p : Run → Bool) (rs : List Run) → IsKeyed rs → IsKeyed (keep_if p rs)
keep_if-IsKeyed p [] h = tt
keep_if-IsKeyed p (r ∷ rs) h = elim (Bool-cases (p r)) [
  | inl e ↦ rw e (All-keep_if _ p rs h.0, keep_if-IsKeyed p rs h.1)
  | inr e ↦ rw e (keep_if-IsKeyed p rs h.1)
]

insert_newest-front :
    (r : Run) (ss : List Run)
    → All (λ s. comes_after (cursor_of r) s ≡ true) ss
    → insert_newest r ss ≡ r ∷ ss
insert_newest-front r [] h = refl
insert_newest-front r (s ∷ ss) h = rw h.0 refl

keep_if-insert :
    (p : Run → Bool) (r : Run) (ss : List Run)
    → p r ≡ true
    → IsListed ss
    → keep_if p (insert_newest r ss) ≡ insert_newest r (keep_if p ss)
keep_if-insert p r [] h l = rw h refl
keep_if-insert p r (s ∷ ss) h l = elim (Bool-cases (comes_after (cursor_of r) s)) [
  | inl e ↦
      let after =
        All-keep_if (λ t. comes_after (cursor_of r) t ≡ true) p (s ∷ ss)
          (e, All-after r s ss e l.0) in
      rw (insert_newest-front r (keep_if p (s ∷ ss)) after) (rw (e, h) refl)
  | inr e ↦ elim (Bool-cases (p s)) [
    | inl f ↦ rw (e, f, e) (ap (λ l. s ∷ l) (keep_if-insert p r ss h l.1))
    | inr f ↦ rw (e, f) (keep_if-insert p r ss h l.1)
  ]
]

keep_if-insert_out :
    (p : Run → Bool) (r : Run) (ss : List Run)
    → p r ≡ false
    → keep_if p (insert_newest r ss) ≡ keep_if p ss
keep_if-insert_out p r [] h = rw h refl
keep_if-insert_out p r (s ∷ ss) h = elim (Bool-cases (comes_after (cursor_of r) s)) [
  | inl e ↦ rw (e, h) refl
  | inr e ↦ elim (Bool-cases (p s)) [
    | inl f ↦ rw (e, f) (ap (λ l. s ∷ l) (keep_if-insert_out p r ss h))
    | inr f ↦ rw (e, f) (keep_if-insert_out p r ss h)
  ]
]

pub newest_first-keep_if :
    (p : Run → Bool) (rs : List Run)
    → IsKeyed rs
    → newest_first (keep_if p rs) ≡ keep_if p (newest_first rs)
newest_first-keep_if p [] h = refl
newest_first-keep_if p (r ∷ rs) h = elim (Bool-cases (p r)) [
  | inl e ↦ rw e (
      ap (insert_newest r) (newest_first-keep_if p rs h.1)
      ∙ sym (keep_if-insert p r (newest_first rs) e (newest_first-IsListed rs h.1)))
  | inr e ↦ rw e (newest_first-keep_if p rs h.1 ∙ sym (keep_if-insert_out p r (newest_first rs) e))
]
