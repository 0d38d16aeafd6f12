-- ===== src/Printers/Store/Validity.antt =====
-- What the validation of src/printers.rs reads of the earlier printers, and the order of additions.
use mb_printer_cli.Common.{
  ◌≡◌, ◌⊎◌, inl, inr, refl, ◌∙◌, sym, ap, Bool, true, false, ◌||◌, none, some, List, [], ◌∷◌, ◌++◌,
  arith, find?, any, is_some, All, Bool-cases,
}
use mb_printer_cli.Common.Text.{Text, text_eq, text_eq_refl, lowercase}
use mb_printer_cli.Common.Sort.{sort_by, insert_by, sort_by-All}
use mb_printer_cli.Common.Result.{ok, err, Result-cases}
use mb_printer_cli.Printers.Errors.{duplicate_printer}
use mb_printer_cli.Printers.Store.{
  Printer, PrinterStore, validate_printer, validate_from, find, validate, resolve, add, clashes,
  selected, text_le,
}

any-append {ℓ} :
    {A : Type ℓ} (p : A → Bool) (xs ys : List A) → any p (xs ++ ys) ≡ (any p xs || any p ys)
any-append p [] ys = refl
any-append p (x ∷ xs) ys = ground (arith, any-append p xs ys)

-- Fewer earlier printers leave fewer clashes.
pub validate_printer_weaken :
    (earlier fewer : List Printer) (p : Printer)
    → (any (clashes p) earlier ≡ false → any (clashes p) fewer ≡ false)
    → validate_printer earlier p ≡ ok tt
    → validate_printer fewer p ≡ ok tt
unfolding validate_printer
validate_printer_weaken earlier fewer p m h = ground (arith, m)

pub validate_from_weaken :
    (earlier fewer printers : List Printer)
    → ((test : Printer → Bool) → any test earlier ≡ false → any test fewer ≡ false)
    → validate_from earlier printers ≡ ok tt
    → validate_from fewer printers ≡ ok tt
unfolding validate_from
validate_from_weaken earlier fewer [] m h = refl
validate_from_weaken earlier fewer (p ∷ printers) m h =
    elim (Result-cases (validate_printer earlier p)) [
      | inl (u, e) ↦ rw (validate_printer_weaken earlier fewer p (m (clashes p)) e) (
          validate_from_weaken (earlier ++ (p ∷ [])) (fewer ++ (p ∷ [])) printers
            (λ test n.
              ground
                (arith, any-append test earlier (p ∷ []), any-append test fewer (p ∷ []), m test))
            (ground arith))
      | inr (x, e) ↦ absurd (ground arith)
    ]

-- Sorting moves printers only.
any-insert_by {ℓ} :
    {A : Type ℓ} (le : A → A → Bool) (p : A → Bool) (x : A) (ys : List A)
    → any p (insert_by le x ys) ≡ (p x || any p ys)
unfolding insert_by
any-insert_by le p x [] = ground arith
any-insert_by le p x (y ∷ ys) = ground (arith, any-insert_by le p x ys)

any-sort_by {ℓ} :
    {A : Type ℓ} (le : A → A → Bool) (p : A → Bool) (xs : List A) → any p (sort_by le xs) ≡ any p xs
unfolding sort_by
any-sort_by le p [] = refl
any-sort_by le p (x ∷ xs) =
    ground (arith, any-insert_by le p x (sort_by le xs), any-sort_by le p xs)

-- Where no other item passes the test, `find` returns the one that does.
find?-only {ℓ} :
    {A : Type ℓ} (test : A → Bool) (a : A) (xs : List A)
    → All (λ x. (test x ≡ false) ⊎ (x ≡ a)) xs
    → any test xs ≡ true
    → find? test xs ≡ some a
find?-only test a [] h t = absurd (ground arith)
find?-only test a (x ∷ xs) h t = elim h.0 [
  | inl e ↦ ground (arith, find?-only test a xs h.1)
  | inr e ↦ elim (Bool-cases (test x)) [
    | inl f ↦ ground arith
    | inr f ↦ ground (arith, find?-only test a xs h.1)
  ]
]

unfound-All :
    (test : Printer → Bool) (p : Printer) (xs : List Printer)
    → find? test xs ≡ none
    → All (λ x. (test x ≡ false) ⊎ (x ≡ p)) (xs ++ (p ∷ []))
unfound-All test p [] h = (inr refl, tt)
unfound-All test p (x ∷ xs) h = elim (Bool-cases (test x)) [
  | inl e ↦ absurd (ground arith)
  | inr e ↦ (inl e, unfound-All test p xs (ground arith))
]

selected_own : (p : Printer) → selected p.name p ≡ true
selected_own p = ground (arith, text_eq_refl (lowercase p.name))

-- The printers after an addition that was not refused as a duplicate.
any_selected :
    (test : Printer → Bool) (p : Printer) (xs : List Printer)
    → test p ≡ true
    → any test (xs ++ (p ∷ [])) ≡ true
any_selected test p xs h = ground (arith, any-append test xs (p ∷ []))

abbrev taken : Printer → PrinterStore → Bool
taken p s = is_some (find p.name s) || any (λ existing. text_eq existing.id p.id) s.printers

abbrev by_name : (Text → Text) → Printer → Printer → Bool
by_name to_lowercase a b = text_le (to_lowercase a.name) (to_lowercase b.name)

abbrev inserted : (Text → Text) → Printer → PrinterStore → PrinterStore
inserted to_lowercase p s = record s {
  printers = sort_by (by_name to_lowercase) (s.printers ++ (p ∷ []));
}

add_new :
    (to_lowercase : Text → Text) (p : Printer) (s : PrinterStore)
    → taken p s ≡ false
    → add to_lowercase p s ≡ (validate (inserted to_lowercase p s), inserted to_lowercase p s)
unfolding add
add_new to_lowercase p s e = rw e refl

add-taken :
    (to_lowercase : Text → Text) (p : Printer) (s : PrinterStore)
    → taken p s ≡ true
    → add to_lowercase p s ≡ (err (duplicate_printer p.name), s)
unfolding add
add-taken to_lowercase p s e = rw e refl

resolve-inserted :
    (to_lowercase : Text → Text) (p : Printer) (s : PrinterStore)
    → find p.name s ≡ none
    → resolve (some p.name) (inserted to_lowercase p s) ≡ ok p
unfolding resolve find
resolve-inserted to_lowercase p s missing =
    let found : find? (selected p.name) (sort_by (by_name to_lowercase) (s.printers ++ (p ∷ [])))
        ≡ some p =
      find?-only (selected p.name) p (sort_by (by_name to_lowercase) (s.printers ++ (p ∷ [])))
        (sort_by-All (by_name to_lowercase) (λ x. (selected p.name x ≡ false) ⊎ (x ≡ p))
          (s.printers ++ (p ∷ [])) (unfound-All (selected p.name) p s.printers missing))
        (any-sort_by (by_name to_lowercase) (selected p.name) (s.printers ++ (p ∷ []))
          ∙ any_selected (selected p.name) p s.printers (selected_own p)) in
    rw found refl

-- After an addition that succeeded, the store is valid and the new printer is the one that its name
-- selects, whatever the identifiers and names of the others; a printer whose name was taken is
-- refused as a duplicate and leaves the store as it was.
pub add-resolve :
    (to_lowercase : Text → Text) (p : Printer) (s : PrinterStore)
    → ((add to_lowercase p s).0 ≡ ok tt
        → (validate (add to_lowercase p s).1 ≡ ok tt)
          × (resolve (some p.name) (add to_lowercase p s).1 ≡ ok p))
      × (is_some (find p.name s) ≡ true
          → add to_lowercase p s ≡ (err (duplicate_printer p.name), s))
add-resolve to_lowercase p s = (
  λ h. elim (Bool-cases (taken p s)) [
    | inl e ↦ absurd (ground (arith, add-taken to_lowercase p s e))
    | inr e ↦
        let new = add_new to_lowercase p s e in
        let missing : find p.name s ≡ none = ground arith in
        rw new (sym (ap (λ r. r.0) new) ∙ h, resolve-inserted to_lowercase p s missing)
  ],
  λ d. add-taken to_lowercase p s (ground arith),
)
