-- ===== src/Tests/Session.antt =====
-- Runs of the session, the URL parser and the remaining text functions.
use mathlib.Core.List.{cons≢nil}
use mathlib.Core.Option.{none-ne-some}
use mini_agent_os.Ascii.{is_space, is_ascii_digit, skip_spaces, strip_prefix}
use mini_agent_os.Base.{
  true, [], ◌∷◌, ◌≡◌, ◌≢◌, refl, sym, arith, inr, some, Bytes, codes, replicate,
}
use mini_agent_os.Buffer.{fresh, put, copy_bytes}
use mini_agent_os.Json.Array.Membership.{member, json_string_array_contains-items_text}
use mini_agent_os.Json.Array.{json_string_array_contains}
use mini_agent_os.Json.{json_find_key, expect}
use mini_agent_os.Net.Ipv4.{parse_ipv4_bytes}
use mini_agent_os.Net.Url.Text.{parse_agent_url-url_text, url_text}
use mini_agent_os.Net.Url.{parse_agent_url}
use mini_agent_os.Session.History.{user, assistant, take_turns, take_turns-IsHistory, IsHistory}
use mini_agent_os.Session.Store.{
  read_session_state-write_session_state, read_session_state_other, HasSlot,
}
use mini_agent_os.Session.{
  Session, free_slot, read_session_state, stored, value_max, write_session_state,
}
use mini_agent_os.Utf8.Encode.{append_utf8_codepoint_lem}
use mini_agent_os.Utf8.Scalar.{nil, encode}
use mini_agent_os.Utf8.{append_utf8_codepoint, copy_utf8_prefix}

abbrev empty : Session
empty = record {
  started = true;
  history = [];
  slots = replicate 8 (record { key = []; value = [] });
}

written :
    write_session_state (codes "city") (codes "Oslo") empty
    ≡ some (stored (codes "city") (codes "Oslo") empty)
unfolding write_session_state
written = refl

read_session_state-write_session_state_example :
    read_session_state (codes "city") 64 (stored (codes "city") (codes "Oslo") empty)
    ≡ copy_bytes 64 (copy_utf8_prefix value_max (codes "Oslo"))
read_session_state-write_session_state_example =
    read_session_state-write_session_state (codes "city") (codes "Oslo") 64 empty
      (stored (codes "city") (codes "Oslo") empty) refl written

free : HasSlot (codes "city") empty
unfolding free_slot
free = inr (λ e. absurd (none-ne-some 0 (sym e)))

read_session_state_other_example :
    read_session_state (codes "name") 64 (stored (codes "city") (codes "Oslo") empty)
    ≡ read_session_state (codes "name") 64 empty
read_session_state_other_example =
    read_session_state_other (codes "city") (codes "name") (codes "Oslo") 64 empty
      (stored (codes "city") (codes "Oslo") empty) free other written
  where
    other : codes "name" ≢ codes "city"
    other e = absurd (ground arith)

-- A turn with a cut character.
take_turns-IsHistory_example :
    IsHistory (take_turns (user (0x68 ∷ 0xc3 ∷ []) ∷ assistant (codes "ok") ∷ []) empty)
take_turns-IsHistory_example =
    take_turns-IsHistory (user (0x68 ∷ 0xc3 ∷ []) ∷ assistant (codes "ok") ∷ []) empty
      ((omega arith, (omega arith, tt)), ((omega arith, (omega arith, tt)), tt)) (nil, omega arith)

parse_agent_url-url_text_example :
    parse_agent_url (url_text true (codes "a.b") (some (codes "8443")) (codes "/c"))
    ≡ some (record {
      host = codes "a.b";
      path = codes "/c";
      https = true;
      port = 8443;
      fixed_ip = parse_ipv4_bytes (codes "a.b");
    })
unfolding is_space is_ascii_digit
parse_agent_url-url_text_example =
    parse_agent_url-url_text true (codes "a.b") (some (codes "8443")) (codes "/c") cons≢nil
      (
        (refl, (λ e. omega (arith, e)), (λ e. omega (arith, e))),
        (
          (refl, (λ e. omega (arith, e)), (λ e. omega (arith, e))),
          ((refl, (λ e. omega (arith, e)), (λ e. omega (arith, e))), tt),
        ),
      )
      ((refl, (refl, (refl, (refl, tt)))), omega arith) (refl, (refl, tt))

append_utf8_codepoint_lem_example :
    append_utf8_codepoint (fresh 8) 0x20ac ≡ put (fresh 8) (encode 0x20ac)
append_utf8_codepoint_lem_example = append_utf8_codepoint_lem (fresh 8) 0x20ac

abbrev profile : Bytes
profile = codes "{\"hosts\":[\"a\",\"b\"]}"

json_string_array_contains-items_text_example :
    json_string_array_contains profile (codes "hosts") (codes "b")
    ≡ some (member (codes "b") (codes "a" ∷ codes "b" ∷ []))
unfolding json_find_key strip_prefix expect skip_spaces is_space
json_string_array_contains-items_text_example =
    json_string_array_contains-items_text profile (codes "hosts") (codes "b")
      (codes "a" ∷ codes "b" ∷ []) (codes "}") refl
      (
        (((λ e. omega (arith, e)), (λ e. omega (arith, e))), tt),
        ((((λ e. omega (arith, e)), (λ e. omega (arith, e))), tt), tt),
      )
