-- ===== src/Asn1/Valid.antt =====
-- The walk over the encoding of elements.
use picotls.Prelude.{
  ℕ, zero, suc, ◌+◌, ◌-◌, ◌^◌, ◌≤◌, ◌<◌, ◌≡◌, refl, sym, ap, ◌∙◌, false, Option, none, some, List,
  [], ◌∷◌, ◌++◌, append-nil, append_assoc, arith, ltb, leb, le→leb, length, drop, length-append,
  drop-append_length,
}
use picotls.Asn1.{
  Walk, LengthRead, after_part, validation_parts, validation_contents, validation_recursive,
  asn1_validation, verdict,
}
use picotls.Asn1.Elements.{
  Elements, end, plain, structured, encode_length, encode_element, encode_elements, IsTag,
  AreWritable, short_read, short_type, asn1_read_length-encode_length, asn1_read_type_of_tag,
}

-- A walk that ends without an error.
abbrev done : ℕ → Option Walk
done index = some (record { index = index; decode_error = 0 })

-- An element is its type, its length, and its contents.
element_walk :
    (depth structure_bit tag m : ℕ) (contents extra : List ℕ)
    → IsTag structure_bit tag
    → length contents < 2 ^ 16
    → length (encode_element tag contents) ≤ m
    → validation_recursive (suc depth) (encode_element tag contents ++ extra) m 0
      ≡ validation_contents
          (validation_recursive depth)
          (tag ∷ encode_length (length contents) ++ (contents ++ extra))
          m
          (short_type structure_bit tag)
          (short_read (length contents))
unfolding validation_recursive
element_walk depth structure_bit tag m contents extra h small room =
    let n : ℕ = length contents in
    let rest : List ℕ = encode_length n ++ (contents ++ extra) in
    let read =
      asn1_read_length-encode_length tag n m (contents ++ extra) small
        (omega (arith, length-append (encode_length n) contents)) in
    ap (λ t. validation_recursive (suc depth) (tag ∷ t) m 0)
      (append_assoc (encode_length n) contents extra)
    ∙ rw (asn1_read_type_of_tag structure_bit tag m rest h) (rw read refl)

plain_walk :
    (depth tag m : ℕ) (contents extra : List ℕ)
    → IsTag 0 tag
    → length contents < 2 ^ 16
    → length (encode_element tag contents) ≤ m
    → validation_recursive (suc depth) (encode_element tag contents ++ extra) m 0
      ≡ done (length (encode_element tag contents))
unfolding validation_contents
plain_walk depth tag m contents extra h small room =
    let size = length-append (encode_length (length contents)) contents in
    element_walk depth 0 tag m contents extra h small room
    ∙ rw
        (le→leb (suc (length (encode_length (length contents))) + length contents) m
          (omega (arith, size)))
        (ap done (omega (arith, size)))

structured_walk :
    (depth tag m : ℕ) (contents extra : List ℕ)
    → IsTag 1 tag
    → length contents < 2 ^ 16
    → length (encode_element tag contents) ≤ m
    → validation_parts
        (validation_recursive depth)
        (m + 1)
        (tag ∷ encode_length (length contents) ++ (contents ++ extra))
        m
        (short_read (length contents))
        (suc (length (encode_length (length contents))))
        0
      ≡ done (suc (length (encode_length (length contents))) + length contents)
    → validation_recursive (suc depth) (encode_element tag contents ++ extra) m 0
      ≡ done (length (encode_element tag contents))
unfolding validation_contents
structured_walk depth tag m contents extra h small room parts =
    let size = length-append (encode_length (length contents)) contents in
    element_walk depth 1 tag m contents extra h small room
    ∙ rw
        (le→leb (suc (length (encode_length (length contents))) + length contents) m
          (omega (arith, size)))
        (parts ∙ ap done (omega (arith, size)))

drop_more : {A : Type 0} (n i k : ℕ) (xs : List A) → n ≡ i + k → drop n xs ≡ drop k (drop i xs)
drop_more n zero k xs e = ap (λ (m : ℕ). drop m xs) (omega arith)
drop_more zero (suc i) k xs e = absurd (omega arith)
drop_more (suc n) (suc i) zero [] e = refl
drop_more (suc n) (suc i) (suc k) [] e = refl
drop_more (suc n) (suc i) k (x ∷ xs) e = drop_more n i k xs (omega arith)

-- One round of the loop, over a part of `k` bytes.
parts_step :
    (part : List ℕ → ℕ → ℕ → Option Walk) (rounds k bytes_max index : ℕ) (all here : List ℕ)
    (l : LengthRead) (result : Option Walk)
    → l.indefinite_length ≡ false
    → index < l.last_byte
    → drop index all ≡ here
    → part here (l.last_byte - index) 0 ≡ done k
    → validation_parts part rounds all bytes_max l (index + k) 0 ≡ result
    → validation_parts part (suc rounds) all bytes_max l index 0 ≡ result
unfolding validation_parts after_part
parts_step part rounds k bytes_max index all here l result definite more at_here walked rest =
    let open_end : leb l.last_byte index ≡ false = ground arith in
    rw (open_end, definite, at_here, walked) rest

parts_end :
    (part : List ℕ → ℕ → ℕ → Option Walk) (rounds bytes_max index : ℕ) (all : List ℕ)
    (l : LengthRead)
    → l.last_byte ≡ index
    → validation_parts part (suc rounds) all bytes_max l index 0 ≡ done l.last_byte
unfolding validation_parts
parts_end part rounds bytes_max index all l last =
    rw (le→leb l.last_byte index (omega arith)) (ap done (sym last))

-- The element `front` is passed over, and what follows it is next.
pass_element :
    (part : List ℕ → ℕ → ℕ → Option Walk) (rounds bytes_max index : ℕ)
    (all front rest extra : List ℕ) (l : LengthRead) (result : Option Walk)
    → l.indefinite_length ≡ false
    → drop index all ≡ (front ++ rest) ++ extra
    → l.last_byte ≡ index + length (front ++ rest)
    → 1 ≤ length front
    → ((m : ℕ) → length front ≤ m → part (front ++ (rest ++ extra)) m 0 ≡ done (length front))
    → (drop (index + length front) all ≡ rest ++ extra
        → l.last_byte ≡ index + length front + length rest
        → validation_parts part rounds all bytes_max l (index + length front) 0 ≡ result)
    → validation_parts part (suc rounds) all bytes_max l index 0 ≡ result
pass_element part rounds bytes_max index all front rest extra l result definite here last some_byte
      walked later =
    let size = length-append front rest in
    parts_step part rounds (length front) bytes_max index all (front ++ (rest ++ extra)) l result
      definite (omega (arith, size)) (here ∙ append_assoc front rest extra)
      (walked (l.last_byte - index) (omega (arith, size)))
      (later
        (drop_more (index + length front) index (length front) all refl
          ∙ ap (drop (length front)) (here ∙ append_assoc front rest extra)
          ∙ drop-append_length front (rest ++ extra))
        (omega (arith, size)))

elements_walk :
    (es : Elements) (depth rounds bytes_max index : ℕ) (all extra : List ℕ) (l : LengthRead)
    → AreWritable es
    → l.indefinite_length ≡ false
    → length (encode_elements es) ≤ depth
    → length (encode_elements es) < rounds
    → drop index all ≡ encode_elements es ++ extra
    → l.last_byte ≡ index + length (encode_elements es)
    → validation_parts (validation_recursive depth) rounds all bytes_max l index 0
      ≡ done l.last_byte
unfolding encode_elements
elements_walk es depth zero bytes_max index all extra l w definite deep enough here last =
    absurd (omega arith)
elements_walk end depth (suc rounds) bytes_max index all extra l w definite deep enough here last =
    parts_end (validation_recursive depth) rounds bytes_max index all l (omega arith)
elements_walk (plain tag c rest) zero rounds bytes_max index all extra l w definite deep enough here
      last =
    absurd (omega arith)
elements_walk (plain tag c rest) (suc depth) (suc rounds) bytes_max index all extra l w definite
      deep enough here last =
    let front : List ℕ = encode_element tag c in
    let tail : List ℕ = encode_elements rest in
    let size = length-append front tail in
    pass_element (validation_recursive (suc depth)) rounds bytes_max index all front tail extra l
      (done l.last_byte) definite here last (omega arith)
      (λ m room. plain_walk depth tag m c (tail ++ extra) w.0 w.1 room)
      (elements_walk rest (suc depth) rounds bytes_max (index + length front) all extra l w.2
        definite (omega (arith, size)) (omega (arith, size)))
elements_walk (structured tag inner rest) zero rounds bytes_max index all extra l w definite deep
      enough here last =
    absurd (omega arith)
elements_walk (structured tag inner rest) (suc depth) (suc rounds) bytes_max index all extra l w
      definite deep enough here last =
    let c : List ℕ = encode_elements inner in
    let header : List ℕ = tag ∷ encode_length (length c) in
    let tail : List ℕ = encode_elements rest in
    let size = length-append (header ++ c) tail in
    let inner_size = length-append header c in
    pass_element (validation_recursive (suc depth)) rounds bytes_max index all (header ++ c) tail
      extra l (done l.last_byte) definite here last (omega arith)
      (λ m room. structured_walk depth tag m c (tail ++ extra) w.0 w.1 room (
        elements_walk inner depth (m + 1) m (length header) (header ++ (c ++ (tail ++ extra)))
          (tail ++ extra) (short_read (length c)) w.2 refl (omega (arith, size, inner_size))
          (omega (arith, inner_size)) (drop-append_length header (c ++ (tail ++ extra)))
          (omega arith)))
      (elements_walk rest (suc depth) rounds bytes_max (index + length (header ++ c)) all extra l
        w.3 definite (omega (arith, size)) (omega (arith, size)))

-- The encoding of a structured element, of elements nested to any depth, is found valid: with tags
-- in the short form whose structure bit says which elements have parts, and lengths below 2 ^ 16.
pub asn1_validation-encode_elements :
    (tag : ℕ) (inner : Elements)
    → AreWritable (structured tag inner end)
    → asn1_validation
        (encode_elements (structured tag inner end))
        (length (encode_elements (structured tag inner end)))
      ≡ some 0
unfolding asn1_validation encode_elements verdict
asn1_validation-encode_elements tag inner w =
    let c : List ℕ = encode_elements inner in
    let header : List ℕ = tag ∷ encode_length (length c) in
    let whole : List ℕ = (header ++ c) ++ [] in
    let size : ℕ = length whole in
    let all_size : size ≡ length (header ++ c) = ap length (append-nil (header ++ c)) in
    let inner_size = length-append header c in
    let walk : validation_recursive (suc size) whole size 0 ≡ done (length (header ++ c)) =
      structured_walk size tag size c [] w.0 w.1 (omega (arith, all_size)) (
        elements_walk inner size (size + 1) size (length header) (header ++ (c ++ [])) []
          (short_read (length c)) w.2 refl (omega (arith, all_size, inner_size))
          (omega (arith, all_size, inner_size)) (drop-append_length header (c ++ []))
          (omega arith)) in
    let covered : ltb (length (header ++ c)) size ≡ false = ground (arith, all_size) in
    ap (λ (d : ℕ). said size (validation_recursive d whole size 0)) (omega arith)
    ∙ ap (said size) walk
    ∙ rw covered refl
  where
    said : ℕ → Option Walk → Option ℕ
    said size o = elim o [ none ↦ none | some w ↦ some (verdict size w) ]
