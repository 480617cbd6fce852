-- ===== src/Net/Dns/Query.antt =====
-- The query that `dns_build_query` of runtime/src/main.rs writes for a name.
use mini_agent_os.Base.{
  ℕ, suc, ◌+◌, ◌/◌, ◌%◌, ◌≤◌, ◌<◌, true, false, ◌||◌, List, [], ◌∷◌, ◌++◌, Option, none, some, ltb,
  leb, ◌==◌, length, Bytes, ◌≡◌, refl, sym, ap, ◌∙◌, arith, All, append_assoc, append-nil,
  length-append,
}
use mini_agent_os.Net.Dns.Response.{IsLabel, Message, labels_text, message_text}
use mini_agent_os.Net.Dns.{
  is_label_char, label_chars, put_label, put_labels, put_end, dns_build_query,
}

-- A label of a host name.
pub record IsHostLabel (l : Bytes) : Type 0 where
  pub size : IsLabel l
  pub chars : label_chars l ≡ true

-- The labels with dots between them.
abbrev pub dotted : Bytes → List Bytes → Bytes
dotted l [] = l
dotted l (m ∷ ls) = l ++ b'.' ∷ dotted m ls

-- The bytes that the labels take.
abbrev pub labels_size : List Bytes → ℕ
labels_size [] = 0
labels_size (l ∷ ls) = suc (length l) + labels_size ls

put_labels_step :
    (room : ℕ) (out label : Bytes) (b : ℕ) (name : Bytes)
    → (b == b'.') ≡ false
    → put_labels room out label (b ∷ name) ≡ put_labels room out (label ++ b ∷ []) name
unfolding put_labels
put_labels_step room out label b name e = rw (put_labels, e) refl

put_labels-chars :
    (room : ℕ) (out label l name : Bytes)
    → label_chars l ≡ true
    → put_labels room out label (l ++ name) ≡ put_labels room out (label ++ l) name
unfolding put_labels label_chars is_label_char
put_labels-chars room out label [] name h =
    ap (λ x. put_labels room out x name) (sym (append-nil label))
put_labels-chars room out label (b ∷ l) name h =
    let dot : (b == b'.') ≡ false = ground (arith, h) in
    let more : label_chars l ≡ true = ground (arith, h) in
    put_labels_step room out label b (l ++ name) dot
    ∙ put_labels-chars room out (label ++ b ∷ []) l name more
    ∙ ap (λ x. put_labels room out x name) (append_assoc label (b ∷ []) l)

put_label-IsHostLabel :
    (room : ℕ) (out l : Bytes)
    → IsHostLabel l
    → length out + suc (length l) < room
    → put_label room out l ≡ some (out ++ length l ∷ l)
unfolding put_label
put_label-IsHostLabel room out l h k =
    let fits : (length l == 0 || ltb 63 (length l) || leb room (length out + 1 + length l))
        ≡ false =
      ground (arith, h.size) in
    rw (fits, h.chars) refl

put_labels-dotted :
    (room : ℕ) (out l : Bytes) (ls : List Bytes)
    → All IsHostLabel (l ∷ ls)
    → length out + labels_size (l ∷ ls) < room
    → put_labels room out [] (dotted l ls) ≡ some (out ++ labels_text (l ∷ ls) [])
unfolding put_labels
put_labels-dotted room out l [] h k =
    ap (put_labels room out []) (sym (append-nil l))
    ∙ put_labels-chars room out [] l [] h.0.chars
    ∙ put_label-IsHostLabel room out l h.0 (omega arith)
    ∙ ap (λ x. some (out ++ length l ∷ x)) (sym (append-nil l))
put_labels-dotted room out l (m ∷ ls) h k =
    let put = out ++ length l ∷ l in
    let size : length put ≡ length out + suc (length l) = length-append out (length l ∷ l) in
    put_labels-chars room out [] l (b'.' ∷ dotted m ls) h.0.chars
    ∙ ap
        (λ (o : Option Bytes). elim o [
          | none ↦ none
          | some put ↦ put_labels room put [] (dotted m ls)
        ])
        (put_label-IsHostLabel room out l h.0 (omega arith))
    ∙ put_labels-dotted room put m ls h.1 (omega arith)
    ∙ ap some (append_assoc out (length l ∷ l) (labels_text (m ∷ ls) []))

labels_text-append :
    (ls : List Bytes) (rest : Bytes) → labels_text ls [] ++ rest ≡ labels_text ls rest
labels_text-append [] rest = refl
labels_text-append (l ∷ ls) rest =
    ap (◌∷◌ (length l))
      (append_assoc l (labels_text ls []) rest ∙ ap (◌++◌ l) (labels_text-append ls rest))

length-labels_text : (ls : List Bytes) → length (labels_text ls []) ≡ labels_size ls
length-labels_text [] = refl
length-labels_text (l ∷ ls) =
    omega (arith, length-append l (labels_text ls []), length-labels_text ls)

-- A query for the address of a name.
abbrev pub query : List Bytes → ℕ → Message
query ls id = record {
  id = id;
  flags = 0x100;
  questions = record { name = record { labels = ls; pointer = none }; qtype = 1; qclass = 1 } ∷ [];
  resources = [];
  others = 0;
  extras = 0;
}

-- For a host name, the query is the message of one question for its address, with the labels of the
-- name in their order and their bytes as they are, in a buffer that has room for it.
pub dns_build_query-dotted :
    (room id : ℕ) (l : Bytes) (ls : List Bytes)
    → All IsHostLabel (l ∷ ls)
    → labels_size (l ∷ ls) + 17 ≤ room
    → dns_build_query room (dotted l ls) id ≡ message_text (query (l ∷ ls) id) []
unfolding dns_build_query put_end
dns_build_query-dotted room id l ls h k =
    let head : Bytes = id / 256 ∷ id % 256 ∷ 1 ∷ 0 ∷ 0 ∷ 1 ∷ 0 ∷ 0 ∷ 0 ∷ 0 ∷ 0 ∷ 0 ∷ [] in
    let end : Bytes = 0 ∷ 0 ∷ 1 ∷ 0 ∷ 1 ∷ [] in
    let text : Bytes = labels_text (l ∷ ls) [] in
    let twelve : ltb room 12 ≡ false = ground arith in
    let fits : ltb room (length (head ++ text) + 5) ≡ false =
      ground (arith, length-labels_text (l ∷ ls)) in
    rw (twelve, put_labels-dotted room head l ls h (omega arith), fits)
      (append_assoc head text end ∙ ap (◌++◌ head) (labels_text-append (l ∷ ls) end))
