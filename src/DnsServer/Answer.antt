-- ===== src/DnsServer/Answer.antt =====
-- main/network/sx_dns_server.c: the answer to a request with one question, and requests that get none.
use opensx_serial_server.Prelude.{
  ℕ, zero, suc, ◌+◌, ◌-◌, ◌*◌, ◌/◌, ◌%◌, ◌^◌, ◌≤◌, ◌<◌, ◌≡◌, ◌≢◌, refl, sym, ap, ◌∙◌, true, false,
  List, [], ◌∷◌, ◌++◌, append_assoc, length, take, drop, replicate, length-append, length-replicate,
  drop-append, ltb, ◌==◌, if◌then◌else◌, All, arith,
}
use opensx_serial_server.Prelude.Buffer.Laws.{take-append_left, drop-drop}
use opensx_serial_server.DnsServer.{
  name, put, byte, net_word, masked_opcode, dns_answer, reply, ignored, answer_questions,
  response_header, parse_dns_request, parse_dns_name,
}
use opensx_serial_server.DnsServer.Names.{encode, dotted, IsFull, parse_dns_name-encode}

-- A request with one question for an address: the header, the name, the type, the class, and any bytes
-- that follow.
pub record Query : Type 0 where
  pub id_high : ℕ
  pub id_low : ℕ
  pub flags_high : ℕ
  pub flags_low : ℕ
  pub counts : ℕ × ℕ × ℕ × ℕ × ℕ × ℕ
  pub label : List ℕ
  pub labels : List (List ℕ)
  pub class_high : ℕ
  pub class_low : ℕ
  pub extra : List ℕ

abbrev pub header : Query → ℕ → ℕ → ℕ → List ℕ
header q flags answers_high answers_low =
    q.id_high ∷ q.id_low ∷ flags ∷ q.flags_low ∷ 0 ∷ 1 ∷ answers_high ∷ answers_low ∷ q.counts.2
    ∷ q.counts.3 ∷ q.counts.4 ∷ q.counts.5 ∷ []

abbrev pub question : Query → List ℕ
question q = encode (q.label ∷ q.labels) ++ (0 ∷ 0 ∷ 1 ∷ q.class_high ∷ q.class_low ∷ q.extra)

abbrev pub packet : Query → List ℕ
packet q = header q q.flags_high q.counts.0 q.counts.1 ++ question q

-- The flag of an answer, the highest bit, is set.
abbrev pub response_flags : ℕ → ℕ
response_flags f = if ltb f 128 then f + 128 else f

abbrev pub answer_record : List ℕ → Query → List ℕ
answer_record ip q = 0xc0 ∷ 12 ∷ 0 ∷ 1 ∷ q.class_high ∷ q.class_low ∷ 0 ∷ 0 ∷ 1 ∷ 44 ∷ 0 ∷ 4 ∷ ip

answered : Query → List ℕ → List ℕ
answered q zeros = header q (response_flags q.flags_high) 0 1 ++ (question q ++ zeros)

response_header-answered :
    (q : Query) (zeros : List ℕ) → response_header (packet q ++ zeros) ≡ answered q zeros
unfolding response_header put answered
response_header-answered q zeros = refl

byte-drop : (bs : List ℕ) (i x : ℕ) (ys : List ℕ) → drop i bs ≡ x ∷ ys → byte bs i ≡ x
byte-drop [] zero x ys e = cc
byte-drop [] (suc i) x ys e = cc
byte-drop (b ∷ bs) zero x ys e = cc e
byte-drop (b ∷ bs) (suc i) x ys e = byte-drop bs i x ys e

-- What the array holds from the name on.
split_question :
    (q : Query) (zeros : List ℕ)
    → answered q zeros
      ≡ header q (response_flags q.flags_high) 0 1
        ++ (encode (q.label ∷ q.labels)
            ++ (0 ∷ 0 ∷ 1 ∷ q.class_high ∷ q.class_low ∷ (q.extra ++ zeros)))
unfolding answered
split_question q zeros =
    ap (λ zs. header q (response_flags q.flags_high) 0 1 ++ zs)
      (append_assoc (encode (q.label ∷ q.labels)) (0 ∷ 0 ∷ 1 ∷ q.class_high ∷ q.class_low ∷ q.extra)
        zeros)

q_end : Query → ℕ
q_end q = 12 + length (encode (q.label ∷ q.labels)) + 1

name_read :
    (q : Query) (zeros : List ℕ)
    → All IsFull q.labels
    → length (encode (q.label ∷ q.labels)) ≤ 128
    → parse_dns_name 128 (answered q zeros) 12 ≡ name (dotted (q.label ∷ q.labels)) (q_end q)
unfolding q_end
name_read q zeros f h =
    ap (λ bs. parse_dns_name 128 bs 12) (split_question q zeros)
    ∙ parse_dns_name-encode (header q (response_flags q.flags_high) 0 1) q.label q.labels
        (0 ∷ 1 ∷ q.class_high ∷ q.class_low ∷ (q.extra ++ zeros)) 128 f h

drop_two :
    (a b n : ℕ) (xs ys zs : List ℕ)
    → a + b ≡ n
    → a ≡ length xs
    → b ≡ length ys
    → drop n (xs ++ (ys ++ zs)) ≡ zs
drop_two a b n xs ys zs e p r =
    sym (drop-drop b a n (xs ++ (ys ++ zs)) e)
    ∙ rw (p, r) (ap (λ ts. drop (length ys) ts) (drop-append xs (ys ++ zs)) ∙ drop-append ys zs)

question_bytes :
    (q : Query) (zeros : List ℕ)
    → drop (q_end q) (answered q zeros) ≡ 0 ∷ 1 ∷ q.class_high ∷ q.class_low ∷ (q.extra ++ zeros)
unfolding q_end
question_bytes q zeros =
    ap (λ bs. drop (q_end q) bs) (split_question q zeros)
    ∙ sym (drop-drop 1 (12 + length (encode (q.label ∷ q.labels))) (q_end q) _ refl)
    ∙ ap (λ bs. drop 1 bs)
        (drop_two 12 (length (encode (q.label ∷ q.labels)))
          (12 + length (encode (q.label ∷ q.labels))) (header q (response_flags q.flags_high) 0 1)
          (encode (q.label ∷ q.labels))
          (0 ∷ 0 ∷ 1 ∷ q.class_high ∷ q.class_low ∷ (q.extra ++ zeros)) refl refl refl)

drop_suc : (bs : List ℕ) (i x : ℕ) (ys : List ℕ) → drop i bs ≡ x ∷ ys → drop (i + 1) bs ≡ ys
drop_suc bs i x ys e = sym (drop-drop 1 i (i + 1) bs refl) ∙ ap (λ zs. drop 1 zs) e

module _ (bs : List ℕ) (i a b c d : ℕ) (ys : List ℕ) (e : drop i bs ≡ a ∷ b ∷ c ∷ d ∷ ys) where
  four_bytes :
      (byte bs i ≡ a) × (byte bs (i + 1) ≡ b) × (byte bs (i + 2) ≡ c) × (byte bs (i + 3) ≡ d)
  four_bytes =
      let e1 = drop_suc bs i a (b ∷ c ∷ d ∷ ys) e in
      let e2 = drop_suc bs (i + 1) b (c ∷ d ∷ ys) e1 in
      let e3 = drop_suc bs (i + 1 + 1) c (d ∷ ys) e2 in
      (
        byte-drop bs i a (b ∷ c ∷ d ∷ ys) e,
        byte-drop bs (i + 1) b (c ∷ d ∷ ys) e1,
        ap (λ k. byte bs k) (omega arith) ∙ byte-drop bs (i + 1 + 1) c (d ∷ ys) e2,
        ap (λ k. byte bs k) (omega arith) ∙ byte-drop bs (i + 1 + 1 + 1) d ys e3,
      )

  answer_bytes :
      (ip : List ℕ) → dns_answer ip bs i ≡ 0xc0 ∷ 12 ∷ a ∷ b ∷ c ∷ d ∷ 0 ∷ 0 ∷ 1 ∷ 44 ∷ 0 ∷ 4 ∷ ip
  unfolding dns_answer
  answer_bytes ip = cc (four_bytes.0, four_bytes.1, four_bytes.2, four_bytes.3)

abbrev head_of : Query → List ℕ
head_of q = header q (response_flags q.flags_high) 0 1 ++ question q

-- Behind the request the array has room, and the answer is put there.
put-answer :
    (q : Query) (zeros answer : List ℕ)
    → length answer ≤ length zeros
    → take (length (packet q) + length answer) (put (length (packet q)) answer (answered q zeros))
      ≡ header q (response_flags q.flags_high) 0 1 ++ (question q ++ answer)
unfolding put answered
put-answer q zeros answer h =
    let kept : take (length (packet q)) (head_of q ++ zeros) ≡ head_of q =
      take-append_left (length (packet q)) (head_of q) zeros refl in
    let rest = drop (length (packet q) + length answer) (head_of q ++ zeros) in
    ap (λ zs. take (length (packet q) + length answer) (zs ++ (answer ++ rest))) kept
    ∙ ap (λ zs. take (length (packet q) + length answer) zs)
        (sym (append_assoc (head_of q) answer rest))
    ∙ take-append_left (length (packet q) + length answer) (head_of q ++ answer) rest
        (sym (length-append (head_of q) answer))

length-answered :
    (q : Query) (zeros : List ℕ)
    → length (answered q zeros) ≡ q_end q + 4 + length q.extra + length zeros
unfolding answered q_end
length-answered q zeros = omega (
  arith,
  length-append (question q) zeros,
  length-append (encode (q.label ∷ q.labels)) (0 ∷ 0 ∷ 1 ∷ q.class_high ∷ q.class_low ∷ q.extra),
)

one_question :
    (q : Query) (zeros ip : List ℕ) (len : ℕ)
    → All IsFull q.labels
    → length (encode (q.label ∷ q.labels)) ≤ 128
    → answer_questions 1 ip (length (packet q)) len (answered q zeros)
      ≡ reply (put (length (packet q)) (answer_record ip q) (answered q zeros)) len
unfolding answer_questions
one_question q zeros ip len f h =
    let tail = q.extra ++ zeros in
    let bytes =
      four_bytes (answered q zeros) (q_end q) 0 1 q.class_high q.class_low tail
        (question_bytes q zeros) in
    let written =
      answer_bytes (answered q zeros) (q_end q) 0 1 q.class_high q.class_low tail
        (question_bytes q zeros) ip in
    let size = length-answered q zeros in
    let inside : ltb (length (answered q zeros)) (q_end q + 4) ≡ false = ground (arith, size) in
    let is_address : (net_word (answered q zeros) (q_end q) == 1) ≡ true =
      ground (arith, bytes.0, bytes.1) in
    rw (name_read q zeros f h) (rw (inside, is_address, written) refl)

-- The request is one that the code answers: it fits, and the bits that the code tests are clear.
pub record IsAnswered (ip : List ℕ) (q : Query) : Type 0 where
  pub address : length ip ≡ 4
  pub full_labels : All IsFull q.labels
  pub name_fits : length (encode (q.label ∷ q.labels)) ≤ 128
  pub packet_fits : length (packet q) + 16 ≤ 256
  pub flags_clear : (q.flags_low / 8) % 16 ≡ 0
  pub flag_byte : q.flags_high < 256

masked-query :
    (q : Query) (zeros : List ℕ)
    → (q.flags_low / 8) % 16 ≡ 0
    → q.flags_high < 256
    → masked_opcode (packet q ++ zeros) ≡ 0
unfolding masked_opcode
masked-query q zeros e h = omega arith

request-reply :
    (ip : List ℕ) (q : Query)
    → IsAnswered ip q
    → parse_dns_request ip (packet q)
      ≡ reply
          (put
            (length (packet q))
            (answer_record ip q)
            (answered q (replicate (256 - length (packet q)) 0)))
          (16 + length (packet q))
unfolding parse_dns_request
request-reply ip q a =
    let zeros = replicate {A = ℕ} (256 - length (packet q)) 0 in
    let fits : ltb 256 (length (packet q)) ≡ false = ground (arith, a.packet_fits) in
    let clear = masked-query q zeros a.flags_clear a.flag_byte in
    let room : ltb 256 (16 + length (packet q)) ≡ false = ground (arith, a.packet_fits) in
    rw (fits, clear, room)
      (rw (response_header-answered q zeros)
        (one_question q zeros ip (16 + length (packet q)) a.full_labels a.name_fits))

-- A request with one question for an address that fits the array, a name of at most 128 bytes, and clear
-- bits where the code looks for the opcode, is answered by itself with the flag of an answer, one
-- announced answer, and behind it that answer: the name by reference, the type and the class of the
-- question, 300 seconds, and the address of the device.
pub parse_dns_request-answers :
    (ip : List ℕ) (q : Query)
    → IsAnswered ip q
    → (bs : List ℕ) × (parse_dns_request ip (packet q) ≡ reply bs (16 + length (packet q)))
      × (take (16 + length (packet q)) bs
          ≡ header q (response_flags q.flags_high) 0 1 ++ (question q ++ answer_record ip q))
parse_dns_request-answers ip q a =
    let zeros = replicate {A = ℕ} (256 - length (packet q)) 0 in
    let room = length-replicate {A = ℕ} (256 - length (packet q)) 0 in
    let whole : length (packet q) + length (answer_record ip q) ≡ 16 + length (packet q) =
      omega (arith, a.address) in
    let array = put (length (packet q)) (answer_record ip q) (answered q zeros) in
    (
      array,
      request-reply ip q a,
      ap (λ n. take n array) (sym whole)
          ∙ put-answer q zeros (answer_record ip q) (omega (arith, a.packet_fits, a.address, room)),
    )

-- A request of at most 256 bytes with one of the bits 3 to 6 set in the second byte of its flags gets no
-- answer, whatever its opcode is, which stands in the first: so a standard query with the bit of
-- authentic data or of checking disabled.
pub parse_dns_request-ignored :
    (ip : List ℕ) (a b c d : ℕ) (rest : List ℕ)
    → c < 256
    → length rest ≤ 252
    → ((d / 8) % 16 ≢ 0)
    → parse_dns_request ip (a ∷ b ∷ c ∷ d ∷ rest) ≡ ignored
unfolding parse_dns_request masked_opcode
parse_dns_request-ignored ip a b c d rest h k e =
    let short : ltb 256 (length (a ∷ b ∷ c ∷ d ∷ rest)) ≡ false = ground arith in
    let set : (((c + d * 256) / 2 ^ 11) % 2 ^ 4 == 0) ≡ false = ground arith in rw (short, set) refl
