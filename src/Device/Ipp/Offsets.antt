-- ===== src/Device/Ipp/Offsets.antt =====
-- `parse_ipp` of src/device.rs reads by offsets what the reader of a stream reads, and no index is out
-- of range.
use mb_printer_cli.Common.{
  ℕ, zero, suc, ◌+◌, ◌*◌, ◌≡◌, ◌≤◌, ◌<◌, refl, sym, ap, subst, ◌∙◌, true, false, ◌&&◌, Option, none,
  some, List, [], ◌∷◌, arith, ltb, leb, length, take, drop, get_elem?, length-drop, Bool-cases, inl,
  inr, ◌==◌,
}
use mb_printer_cli.Common.Grid.{slice}
use mb_printer_cli.Common.Text.{Text}
use mb_printer_cli.Device.Ipp.{
  Attributes, ◌>>=◌, u16_at, Reading, broken, read, read_value, read_name, read_attribute, Turn,
  finished, goes_on, took, turn, parse_from,
}
use mb_printer_cli.Device.Ipp.Stream.{
  take_u16, take_value, take_rest, stream_attribute, StreamTurn, stops, continues, stream_turn,
  stream_from,
}

drop_nil : (n : ℕ) → drop {A = ℕ} n [] ≡ []
drop_nil zero = refl
drop_nil (suc n) = refl

drop-drop : (o n : ℕ) (l : List ℕ) → drop n (drop o l) ≡ drop (o + n) l
drop-drop zero n l = let e : n ≡ 0 + n = omega arith in ap (λ k. drop k l) e
drop-drop (suc o) n [] =
    let e : suc (o + n) ≡ suc o + n = omega arith in drop_nil n ∙ ap (λ k. drop k []) e
drop-drop (suc o) n (x ∷ l) =
    let e : suc (o + n) ≡ suc o + n = omega arith in drop-drop o n l ∙ ap (λ k. drop k (x ∷ l)) e

-- Two bytes from an offset on, where they are in range.
u16_at_lem :
    (o : ℕ) (l : List ℕ)
    → o + 2 ≤ length l
    → (n : ℕ) × (u16_at l o ≡ some n) × (take_u16 (drop o l) ≡ some (n, drop (o + 2) l))
unfolding u16_at
u16_at_lem o [] h = absurd (omega arith)
u16_at_lem zero (a ∷ []) h = absurd (omega arith)
u16_at_lem zero (a ∷ b ∷ l) h = (a * 256 + b, refl, refl)
u16_at_lem (suc o) (x ∷ l) h =
    let (n, p, q) = u16_at_lem o l (omega arith) in
    let e : suc (o + 1) ≡ suc o + 1 = omega arith in
    let f : suc (o + 2) ≡ suc o + 2 = omega arith in
    (
      n,
      subst (λ k. (get_elem? l o >>= λ a. get_elem? (x ∷ l) k >>= λ b. some (a * 256 + b)) ≡ some n)
          e p,
      q ∙ ap (λ k. some (n, drop k (x ∷ l))) f,
    )

take_u16_short : (l : List ℕ) → length l < 2 → take_u16 l ≡ none
take_u16_short [] h = refl
take_u16_short (a ∷ []) h = refl
take_u16_short (a ∷ b ∷ l) h = absurd (omega arith)

slice_in_range :
    (start n : ℕ) (l : List ℕ)
    → ltb (length l) (start + n) ≡ false
    → slice start n l ≡ some (take n (drop start l))
unfolding slice
slice_in_range start n l h = ground arith

-- What was read by offsets, as what was read of the stream.
abbrev as_stream : List ℕ → Reading → Option (List ℕ × (List ℕ × List ℕ))
as_stream bytes broken = none
as_stream bytes (read name raw after) = some (name, (raw, drop after bytes))

abbrev with_name : List ℕ → Option (List ℕ × List ℕ) → Option (List ℕ × (List ℕ × List ℕ))
with_name name none = none
with_name name (some pair) = some (name, pair)

read_value_lem :
    (bytes name : List ℕ) (o n : ℕ)
    → o + 2 ≤ length bytes
    → (t : Reading) × (read_value bytes name o n ≡ some t)
      × (as_stream bytes t ≡ with_name name (take_value (some (n, drop (o + 2) bytes))))
read_value_lem bytes name o n h = elim (Bool-cases (ltb (length bytes) (o + 2 + n))) [
  | inl e ↦
      let short : ltb (length (drop (o + 2) bytes)) n ≡ true =
        ground (arith, length-drop (o + 2) bytes) in
      (broken, rw e refl, rw short refl)
  | inr e ↦
      let enough : ltb (length (drop (o + 2) bytes)) n ≡ false =
        ground (arith, length-drop (o + 2) bytes) in
      (
        read name (take n (drop (o + 2) bytes)) (o + 2 + n),
        rw (e, slice_in_range (o + 2) n bytes e) refl,
        rw (enough, drop-drop (o + 2) n bytes) refl,
      )
]

read_name_lem :
    (bytes : List ℕ) (o n : ℕ)
    → o + 2 ≤ length bytes
    → (t : Reading) × (read_name bytes o n ≡ some t)
      × (as_stream bytes t ≡ take_rest (some (n, drop (o + 2) bytes)))
read_name_lem bytes o n h = elim (Bool-cases (ltb (length bytes) (o + 2 + n + 2))) [
  | inl e ↦
      let short : ltb (length (drop (o + 2) bytes)) (n + 2) ≡ true =
        ground (arith, length-drop (o + 2) bytes) in
      (broken, rw e refl, rw short refl)
  | inr e ↦
      let enough : ltb (length (drop (o + 2) bytes)) (n + 2) ≡ false =
        ground (arith, length-drop (o + 2) bytes) in
      let inside : o + 2 + n + 2 ≤ length bytes = ground arith in
      let name = take n (drop (o + 2) bytes) in
      let (m, at, taken) = u16_at_lem (o + 2 + n) bytes inside in
      let (t, p, q) = read_value_lem bytes name (o + 2 + n) m inside in
      let named : slice (o + 2) n bytes ≡ some name =
        slice_in_range (o + 2) n bytes (ground arith) in
      (t, rw (e, named, at) p, rw (enough, drop-drop (o + 2) n bytes, taken) q)
]

read_attribute_lem :
    (bytes : List ℕ) (o : ℕ)
    → (t : Reading) × (read_attribute bytes o ≡ some t)
      × (as_stream bytes t ≡ stream_attribute (drop o bytes))
unfolding read_attribute stream_attribute
read_attribute_lem bytes o = elim (Bool-cases (ltb (length bytes) (o + 2))) [
  | inl e ↦ (
    broken,
    rw e refl,
    rw (take_u16_short (drop o bytes) (ground (arith, length-drop o bytes))) refl,
  )
  | inr e ↦
      let inside : o + 2 ≤ length bytes = ground arith in
      let (n, at, taken) = u16_at_lem o bytes inside in
      let (t, p, q) = read_name_lem bytes o n inside in (t, rw (e, at) p, rw taken q)
]

-- A turn by offsets, as a turn on the stream.
abbrev as_turn : List ℕ → Turn → StreamTurn
as_turn bytes finished = stops
as_turn bytes (goes_on after current r) = continues (drop after bytes) current r

took_lem :
    (lossy : List ℕ → Text) (bytes : List ℕ) (tag o : ℕ) (current : Option Text) (r : Attributes)
    (t : Reading)
    → (leb 1 tag && leb tag 5) ≡ false
    → as_stream bytes t ≡ stream_attribute (drop o bytes)
    → as_turn bytes (took lossy tag current r t) ≡ stream_turn lossy tag (drop o bytes) current r
unfolding stream_turn
took_lem lossy bytes tag o current r broken e q = rw (e, sym q) refl
took_lem lossy bytes tag o current r (read name raw after) e q = rw (e, sym q) refl

turn_lem :
    (lossy : List ℕ → Text) (bytes : List ℕ) (tag o : ℕ) (current : Option Text) (r : Attributes)
    → (t : Turn) × (turn lossy bytes tag o current r ≡ some t)
      × (as_turn bytes t ≡ stream_turn lossy tag (drop o bytes) current r)
unfolding turn
turn_lem lossy bytes tag o current r = elim (Bool-cases (leb 1 tag && leb tag 5)) [
  | inl e ↦ elim (Bool-cases (tag == 3)) [
    | inl f ↦ (finished, rw (e, f) refl, unfold stream_turn in rw (e, f) refl)
    | inr f ↦ (goes_on o current r, rw (e, f) refl, unfold stream_turn in rw (e, f) refl)
  ]
  | inr e ↦
      let (t, p, q) = read_attribute_lem bytes o in
      (took lossy tag current r t, rw (e, p) refl, took_lem lossy bytes tag o current r t e q)
]

-- The byte at an offset in range is the first from there on.
byte_at :
    (o : ℕ) (l : List ℕ)
    → o < length l
    → (b : ℕ) × (get_elem? l o ≡ some b) × (drop o l ≡ b ∷ drop (o + 1) l)
byte_at o [] h = absurd (omega arith)
byte_at zero (b ∷ l) h = (b, refl, refl)
byte_at (suc o) (x ∷ l) h =
    let (b, p, q) = byte_at o l (omega arith) in
    let e : suc (o + 1) ≡ suc o + 1 = omega arith in (b, p, q ∙ ap (λ k. b ∷ drop k (x ∷ l)) e)

drop_past : (o : ℕ) (l : List ℕ) → length l ≤ o → drop o l ≡ []
drop_past zero [] h = refl
drop_past zero (x ∷ l) h = absurd (omega arith)
drop_past (suc o) [] h = refl
drop_past (suc o) (x ∷ l) h = drop_past o l (omega arith)

-- What follows a turn, by offsets and on the stream.
abbrev resumed : (List ℕ → Text) → ℕ → List ℕ → Attributes → Turn → Option Attributes
resumed lossy fuel bytes r finished = some r
resumed lossy fuel bytes r (goes_on after now more) = parse_from lossy fuel bytes after now more

abbrev stream_resumed : (List ℕ → Text) → ℕ → Attributes → StreamTurn → Option Attributes
stream_resumed lossy fuel r stops = some r
stream_resumed lossy fuel r (continues after now more) = stream_from lossy fuel after now more

parse_from_step :
    (lossy : List ℕ → Text) (fuel : ℕ) (bytes : List ℕ) (o : ℕ) (current : Option Text)
    (r : Attributes) (tag : ℕ) (t : Turn)
    → ltb o (length bytes) ≡ true
    → get_elem? bytes o ≡ some tag
    → turn lossy bytes tag (o + 1) current r ≡ some t
    → parse_from lossy (suc fuel) bytes o current r ≡ resumed lossy fuel bytes r t
unfolding parse_from
parse_from_step lossy fuel bytes o current r tag finished e p q = rw (e, p, q) refl
parse_from_step lossy fuel bytes o current r tag (goes_on after now more) e p q = rw (e, p, q) refl

stream_from_step :
    (lossy : List ℕ → Text) (fuel : ℕ) (rest : List ℕ) (current : Option Text) (r : Attributes)
    (tag : ℕ) (t : StreamTurn)
    → t ≡ stream_turn lossy tag rest current r
    → stream_from lossy (suc fuel) (tag ∷ rest) current r ≡ stream_resumed lossy fuel r t
unfolding stream_from
stream_from_step lossy fuel rest current r tag stops e = rw (sym e, stream_from) refl
stream_from_step lossy fuel rest current r tag (continues after now more) e =
    rw (sym e, stream_from) refl

resumed_lem :
    (lossy : List ℕ → Text) (fuel : ℕ) (bytes : List ℕ) (r : Attributes) (t : Turn)
    → ((after : ℕ) (now : Option Text) (more : Attributes)
        → parse_from lossy fuel bytes after now more
          ≡ stream_from lossy fuel (drop after bytes) now more)
    → resumed lossy fuel bytes r t ≡ stream_resumed lossy fuel r (as_turn bytes t)
resumed_lem lossy fuel bytes r finished h = refl
resumed_lem lossy fuel bytes r (goes_on after now more) h = h after now more

-- The loop by offsets and the loop on the stream have the same result: no index is out of range.
pub parse_from-stream_from :
    (lossy : List ℕ → Text) (fuel : ℕ) (bytes : List ℕ) (o : ℕ) (current : Option Text)
    (r : Attributes)
    → parse_from lossy fuel bytes o current r ≡ stream_from lossy fuel (drop o bytes) current r
unfolding parse_from stream_from
parse_from-stream_from lossy zero bytes o current r = refl
parse_from-stream_from lossy (suc fuel) bytes o current r =
    elim (Bool-cases (ltb o (length bytes))) [
      | inr e ↦ rw (e, drop_past o bytes (ground arith)) refl
      | inl e ↦
          let (tag, p, q) = byte_at o bytes (ground arith) in
          let (t, at, same) = turn_lem lossy bytes tag (o + 1) current r in
          parse_from_step lossy fuel bytes o current r tag t e p at
          ∙ resumed_lem lossy fuel bytes r t (parse_from-stream_from lossy fuel bytes)
          ∙ sym (
              stream_from_step lossy fuel (drop (o + 1) bytes) current r tag (as_turn bytes t) same)
          ∙ sym (ap (λ l. stream_from lossy (suc fuel) l current r) q)
    ]
