-- ===== src/DnsServer/Bounds.antt =====
-- main/network/sx_dns_server.c: whatever a request holds, the code stays inside its arrays and ends.
use opensx_serial_server.Prelude.{
  ℕ, zero, suc, ◌+◌, ◌-◌, ◌*◌, ◌≤◌, ◌<◌, ◌≡◌, refl, Option, none, some, List, [], ◌∷◌, ◌++◌, length,
  take, drop, get_elem?, replicate, length-append, length-take, length-drop, length-replicate, ltb,
  ◌==◌, if◌then◌else◌, Bool-cases, ltb→lt, not_ltb, inl, inr, arith,
}
use opensx_serial_server.DnsServer.{
  Parsed, name, too_long, overrun, no_fuel, add_label, after_label, label_round, parse_from,
  parse_dns_name, put, dns_answer, Outcome, failed, ignored, outside, unfinished, reply,
  on_question, answer_questions, response_header, parse_dns_request, byte, net_word, masked_opcode,
}

-- A name that has been read ends at `bound` at most.
abbrev Ends : ℕ → Parsed → Type 0
Ends bound (name n next) = next ≤ bound
Ends bound too_long = Unit
Ends bound overrun = ⊥
Ends bound no_fuel = ⊥

get_elem?-lt : (xs : List ℕ) (i : ℕ) → i < length xs → (x : ℕ) × (get_elem? xs i ≡ some x)
get_elem?-lt [] i h = absurd (omega arith)
get_elem?-lt (x ∷ xs) zero h = (x, refl)
get_elem?-lt (x ∷ xs) (suc i) h = get_elem?-lt xs i (omega arith)

after_label-Ends :
    (bound next_label : ℕ) (o : Option ℕ) (rest : Parsed) (out : List ℕ) (x : ℕ)
    → o ≡ some x
    → next_label + 1 ≤ bound
    → Ends bound rest
    → Ends bound (after_label o rest out next_label)
after_label-Ends bound next_label none rest out x e h r = cc
after_label-Ends bound next_label (some zero) rest out x e h r = h
after_label-Ends bound next_label (some (suc n)) rest out x e h r = r

length-add_label :
    (bs : List ℕ) (label n : ℕ) (out : List ℕ)
    → label + 1 + n ≤ length bs
    → length (add_label bs label n out) ≡ length out + n + 1
length-add_label bs label n out h = omega (
  arith,
  length-append out (take n (drop (label + 1) bs) ++ b'.' ∷ []),
  length-append (take n (drop (label + 1) bs)) (b'.' ∷ []),
  length-take n (drop (label + 1) bs),
  length-drop (label + 1) bs,
)

module _ (max_len at : ℕ) (bs : List ℕ) (room : at + max_len < length bs) where
  round-Ends :
      (label : ℕ) (out : List ℕ) (o : Option ℕ) (n : ℕ) (rest : ℕ → List ℕ → Parsed)
      → o ≡ some n
      → label ≡ at + length out
      → ((k : ℕ) (out' : List ℕ)
          → length out' ≡ length out + k + 1
          → length out' ≤ max_len
          → Ends (at + max_len + 1) (rest (label + k + 1) out'))
      → Ends (at + max_len + 1) (label_round max_len bs label out o rest)
  round-Ends label out none n rest e l ih = cc
  round-Ends label out (some k) n rest e l ih =
      elim (Bool-cases (ltb max_len (length out + k + 1))) [
        | inl long ↦ rw long tt
        | inr fits ↦ elim (Bool-cases (ltb (length bs) (label + 1 + k))) [
          | inl over ↦ absurd (ground (arith, l))
          | inr inside ↦
              let longer = length-add_label bs label k out (omega (arith, not_ltb _ _ inside)) in
              let short = not_ltb max_len (length out + k + 1) fits in
              let next = get_elem?-lt bs (label + k + 1) (omega (arith, room, l, short)) in
              rw (fits, inside)
                (after_label-Ends (at + max_len + 1) (label + k + 1) (get_elem? bs (label + k + 1))
                  (rest (label + k + 1) (add_label bs label k out)) (add_label bs label k out)
                  next.0 next.1 (omega (arith, l, short))
                  (ih k (add_label bs label k out) longer (omega (arith, longer, short))))
        ]
      ]

  parse_from-Ends :
      (fuel label : ℕ) (out : List ℕ)
      → label ≡ at + length out
      → length out ≤ max_len
      → max_len < length out + fuel
      → Ends (at + max_len + 1) (parse_from fuel max_len bs label out)
  unfolding parse_from
  parse_from-Ends zero label out l h f = absurd (omega arith)
  parse_from-Ends (suc fuel) label out l h f =
      let found = get_elem?-lt bs label (omega (arith, room)) in
      round-Ends label out (get_elem? bs label) found.0 (parse_from fuel max_len bs) found.1 l
        (λ k out' e short.
          parse_from-Ends fuel (label + k + 1) out' (omega (arith, e, l)) short
            (omega (arith, e, f)))

-- Whatever an array of 256 bytes holds, the name behind the header of 12 bytes is read within it.
parse_dns_name-Ends : (bs : List ℕ) → length bs ≡ 256 → Ends 141 (parse_dns_name 128 bs 12)
unfolding parse_dns_name
parse_dns_name-Ends bs h =
    parse_from-Ends 128 12 bs (omega arith) 129 12 [] refl (omega arith) (omega arith)

length-put :
    (at : ℕ) (src bs : List ℕ) → at + length src ≤ length bs → length (put at src bs) ≡ length bs
unfolding put
length-put at src bs h = omega (
  arith,
  length-append (take at bs) (src ++ drop (at + length src) bs),
  length-append src (drop (at + length src) bs),
  length-take at bs,
  length-drop (at + length src) bs,
)

-- The reply lies within the array, or the request is refused.
abbrev pub Safe : ℕ → Outcome → Type 0
Safe len (reply bs n) = (length bs ≡ 256) × (n ≡ len)
Safe len failed = Unit
Safe len ignored = Unit
Safe len outside = ⊥
Safe len unfinished = ⊥

question-Safe :
    (ip : List ℕ) (req_len len : ℕ) (bs : List ℕ) (p : Parsed) (rest : List ℕ → Outcome)
    → length ip ≡ 4
    → req_len + 16 ≤ 256
    → length bs ≡ 256
    → Ends 141 p
    → ((bs' : List ℕ) → length bs' ≡ 256 → Safe len (rest bs'))
    → Safe len (on_question ip req_len bs p rest)
unfolding dns_answer
question-Safe ip req_len len bs too_long rest i r l e h = tt
question-Safe ip req_len len bs overrun rest i r l e h = e
question-Safe ip req_len len bs no_fuel rest i r l e h = e
question-Safe ip req_len len bs (name n q) rest i r l e h =
    elim (Bool-cases (ltb (length bs) (q + 4))) [
      | inl over ↦ absurd (omega (arith, ltb→lt _ _ over))
      | inr inside ↦ elim (Bool-cases (net_word bs q == 1)) [
        | inl a ↦
            rw (inside, a)
              (h (put req_len (dns_answer ip bs q) bs)
                (omega (arith, length-put req_len (dns_answer ip bs q) bs (omega arith))))
        | inr b ↦ rw (inside, b) (h bs l)
      ]
    ]

questions-Safe :
    (count : ℕ) (ip : List ℕ) (req_len len : ℕ) (bs : List ℕ)
    → length ip ≡ 4
    → count * 16 + req_len ≤ 256
    → length bs ≡ 256
    → Safe len (answer_questions count ip req_len len bs)
unfolding answer_questions
questions-Safe zero ip req_len len bs i r l = (l, refl)
questions-Safe (suc count) ip req_len len bs i r l =
    question-Safe ip req_len len bs (parse_dns_name 128 bs 12)
      (answer_questions count ip req_len len) i (omega arith) l (parse_dns_name-Ends bs l)
      (λ bs' l'. questions-Safe count ip req_len len bs' i (omega arith) l')

length-padded :
    (req : List ℕ) → length req ≤ 256 → length (req ++ replicate (256 - length req) 0) ≡ 256
length-padded req h = omega (
  arith,
  length-append req (replicate (256 - length req) 0),
  length-replicate {A = ℕ} (256 - length req) 0,
)

length-response_header : (bs : List ℕ) → length bs ≡ 256 → length (response_header bs) ≡ 256
unfolding response_header
length-response_header bs h =
    let counts = byte bs 4 ∷ byte bs 5 ∷ [] in
    let flags = (if ltb (byte bs 2) 128 then byte bs 2 + 128 else byte bs 2) ∷ [] in
    let counted = length-put 6 counts bs (omega arith) in
    omega (arith, counted, length-put 2 flags (put 6 counts bs) (omega (arith, counted)))

-- The reply lies within its array of 256 bytes and is no shorter than the request; the code ends, and
-- reads no byte outside the array.
abbrev pub InBounds : ℕ → Outcome → Type 0
InBounds req_len (reply bs n) = (length bs ≡ 256) × (req_len ≤ n) × (n ≤ 256)
InBounds req_len failed = Unit
InBounds req_len ignored = Unit
InBounds req_len outside = ⊥
InBounds req_len unfinished = ⊥

Safe-InBounds :
    (len req_len : ℕ) (o : Outcome) → req_len ≤ len → len ≤ 256 → Safe len o → InBounds req_len o
Safe-InBounds len req_len (reply bs n) h k s = (s.0, omega (arith, s.1), omega (arith, s.1))
Safe-InBounds len req_len failed h k s = tt
Safe-InBounds len req_len ignored h k s = tt
Safe-InBounds len req_len outside h k s = s
Safe-InBounds len req_len unfinished h k s = s

-- Whatever bytes a request has, and however many, the code ends, reads no byte outside its array of 256
-- bytes, and sends, if anything, at least the length of the request and at most the array.
pub parse_dns_request-InBounds :
    (ip req : List ℕ) → length ip ≡ 4 → InBounds (length req) (parse_dns_request ip req)
unfolding parse_dns_request
parse_dns_request-InBounds ip req i =
    let bs = req ++ replicate (256 - length req) 0 in
    let count = net_word bs 4 in
    let len = count * 16 + length req in
    elim (Bool-cases (ltb 256 (length req))) [
      | inl long ↦ rw long tt
      | inr fits ↦ elim (Bool-cases (masked_opcode bs == 0)) [
        | inr other ↦ rw (fits, other) tt
        | inl query ↦ elim (Bool-cases (ltb 256 len)) [
          | inl over ↦ rw (fits, query, over) tt
          | inr within ↦
              let padded = length-padded req (omega (arith, not_ltb _ _ fits)) in
              let room = not_ltb 256 len within in
              rw (fits, query, within)
                (Safe-InBounds len (length req)
                  (answer_questions count ip (length req) len (response_header bs)) (omega arith)
                  (omega (arith, room))
                  (questions-Safe count ip (length req) len (response_header bs) i
                    (omega (arith, room)) (length-response_header bs padded)))
        ]
      ]
    ]
