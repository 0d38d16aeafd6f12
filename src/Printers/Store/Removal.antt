-- ===== src/Printers/Store/Removal.antt =====
-- A removal keeps the store of src/printers.rs valid.
use mb_printer_cli.Common.{
  ◌≡◌, inl, inr, refl, Bool, false, Option, none, some, List, [], ◌∷◌, ◌++◌, arith, find?, any,
  Bool-cases, Option-cases, ◌==◌,
}
use mb_printer_cli.Common.Text.{Text, text_eq, lowercase}
use mb_printer_cli.Common.Result.{ok, Result-cases}
use mb_printer_cli.Printers.Store.{
  Printer, PrinterStore, validate_printer, validate_from, find, validate, validate_default,
  selected, take_out, names_default, without, remove, printer_store_schema,
}
use mb_printer_cli.Printers.Store.Validity.{validate_from_weaken}

text_eq_sym : (a b : Text) → text_eq a b ≡ text_eq b a
unfolding text_eq
text_eq_sym [] [] = refl
text_eq_sym [] (y ∷ b) = refl
text_eq_sym (x ∷ a) [] = refl
text_eq_sym (x ∷ a) (y ∷ b) = ground (arith, text_eq_sym a b)

any-append_left :
    (test : Printer → Bool) (xs ys : List Printer)
    → any test (xs ++ ys) ≡ false
    → any test xs ≡ false
any-append_left test [] ys h = refl
any-append_left test (x ∷ xs) ys h = ground (arith, any-append_left test xs ys)

validate_from-take_out :
    (test : Printer → Bool) (earlier printers : List Printer) (q : Printer) (rest : List Printer)
    → take_out test printers ≡ some (q, rest)
    → validate_from earlier printers ≡ ok tt
    → validate_from earlier rest ≡ ok tt
unfolding take_out validate_from
validate_from-take_out test earlier [] q rest e h = absurd (ground arith)
validate_from-take_out test earlier (p ∷ printers) q rest e h =
    elim (Result-cases (validate_printer earlier p)) [
      | inr (x, f) ↦ absurd (ground arith)
      | inl (u, f) ↦
          let after : validate_from (earlier ++ (p ∷ [])) printers ≡ ok tt = ground arith in
          elim (Bool-cases (test p)) [
            | inl t ↦
                let same : rest ≡ printers = ground arith in
                rw same (
                  validate_from_weaken (earlier ++ (p ∷ [])) earlier printers
                    (λ c n. any-append_left c earlier (p ∷ []) n) after)
            | inr t ↦ elim (Option-cases (take_out test printers)) [
              | inl n ↦ absurd (ground arith)
              | inr ((q', rest'), n) ↦
                  let kept : rest ≡ p ∷ rest' = ground arith in
                  let again : validate_from (earlier ++ (p ∷ [])) rest' ≡ ok tt =
                    validate_from-take_out test (earlier ++ (p ∷ [])) printers q' rest' n after in
                  rw kept (ground arith)
            ]
          ]
    ]

find?-take_out :
    (test other : Printer → Bool) (printers : List Printer) (q : Printer) (rest : List Printer)
    → take_out test printers ≡ some (q, rest)
    → other q ≡ false
    → find? other rest ≡ find? other printers
unfolding take_out
find?-take_out test other [] q rest e n = absurd (ground arith)
find?-take_out test other (p ∷ printers) q rest e n = elim (Bool-cases (test p)) [
  | inl t ↦ ground arith
  | inr t ↦ elim (Option-cases (take_out test printers)) [
    | inl m ↦ absurd (ground arith)
    | inr ((q', rest'), m) ↦ ground (arith, find?-take_out test other printers q' rest' m)
  ]
]

unselected : (p : Printer) (d : Text) → names_default p (some d) ≡ false → selected d p ≡ false
unselected p d h = ground (arith, text_eq_sym d p.id, text_eq_sym (lowercase d) (lowercase p.name))

validate_default-without :
    (selector : Text) (s : PrinterStore) (q : Printer) (rest : List Printer) (default : Option Text)
    → take_out (selected selector) s.printers ≡ some (q, rest)
    → s.default_printer ≡ default
    → validate_default default s ≡ ok tt
    → validate_default (without s q rest).default_printer (without s q rest) ≡ ok tt
unfolding find
validate_default-without selector s q rest none e d h = rw d refl
validate_default-without selector s q rest (some default) e d h =
    elim (Bool-cases (names_default q (some default))) [
      | inl n ↦ rw (d, n) refl
      | inr n ↦
          rw
            (
              d,
              n,
              find?-take_out (selected selector) (selected default) s.printers q rest e
                  (unselected q default n),
            )
            h
    ]

-- A removal from a valid store leaves a valid store, whether it found a printer or not: in particular
-- the default printer, if there still is one, can be found.
pub remove-validate :
    (selector : Text) (s : PrinterStore)
    → validate s ≡ ok tt
    → validate (remove selector s).1 ≡ ok tt
unfolding remove validate
remove-validate selector s h = elim (Option-cases (take_out (selected selector) s.printers)) [
  | inl e ↦ rw (e, remove) h
  | inr ((q, rest), e) ↦ elim (Bool-cases (s.schema_version == printer_store_schema)) [
    | inr f ↦ absurd (ground arith)
    | inl f ↦ elim (Result-cases (validate_from [] s.printers)) [
      | inr (x, g) ↦ absurd (ground arith)
      | inl (u, g) ↦
          let default : validate_default s.default_printer s ≡ ok tt = ground arith in
          rw (e, remove, f, validate_from-take_out (selected selector) [] s.printers q rest e g)
            (validate_default-without selector s q rest s.default_printer e refl default)
    ]
  ]
]
