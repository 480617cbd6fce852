-- ===== src/Tests/Http.antt =====
-- Runs of the reader of HTTP responses, and instances of its theorems.
use mini_agent_os.Ascii.{
  ascii_lower, is_space, starts_with, strip_prefix, skip_spaces, is_ascii_digit,
}
use mini_agent_os.Base.{
  ◌≡◌, ◌++◌, refl, arith, true, false, List, [], ◌∷◌, none, some, Bytes, codes,
}
use mini_agent_os.Net.Http.Begin.{heads_of}
use mini_agent_os.Net.Http.Chunks.{Chunk, IsChunk, IsLast}
use mini_agent_os.Net.Http.Headers.{
  http_parse_headers, parse_status, header_value, name_here, behind_colon, line_value, skip_blanks,
  value_has, has_word, length_loop, three_digits, skip_only_spaces, capture_redirect, find_location,
  location_from, parse_url, parse_scheme, parse_behind, is_domain, follow, is_url_host_char,
  host_chars, has_dot, path_at,
}
use mini_agent_os.Net.Http.Segments.{feed_all, feed_all-joined, joined}
use mini_agent_os.Net.Http.Sized.{told}
use mini_agent_os.Net.Http.Split.{IsWaiting, feed_all-IsWaiting}
use mini_agent_os.Net.Http.Whole.{Holds, http_reset-chunked, http_reset-told}
use mini_agent_os.Net.Http.{
  Http, split_headers, http_reset, http_feed, feed_loop, feed_round, header_round, store_header,
  headers_done, begin_body, size_byte, chunk_round, take_chunk, crlf_round, is_hex, hex_val,
}
use mini_agent_os.Net.Url.{span_until, trim}

-- No transfer yet.
abbrev idle : Http
idle = record {
  header = [];
  heads = record {
    status = 0;
    is_chunked = false;
    content_len = 0;
    is_json = false;
    oauth_epoch = none;
    error_reason = [];
    redirect = record {
      oauth_active = false;
      pending = false;
      suppress_ok = false;
      redirects = 0;
      domain = [];
      path = [];
      https = false;
    };
  };
  parse_state = 0;
  body_recv = 0;
  chunk_remain = 0;
  chunk_parse = 0;
  chunk_have_digit = false;
  chunk_ext = false;
  chunk_expect_lf = false;
  status_sent = false;
  statuses = [];
  body = [];
  failed = false;
}

abbrev chunked_head : Bytes
chunked_head = codes "HTTP/1.1 200 OK\r\nTransfer-Encoding: Chunked\r\n\r\n"

-- The first piece ends inside a chunk, the second inside a line break.
abbrev first_rest : Bytes
first_rest = codes "4\r\nWi"

abbrev pieces : List Bytes
pieces = codes "ki\r" ∷ codes "\n005;x\r\npedia\r\n0\r\n\r\n" ∷ []

abbrev wiki : List Chunk
wiki =
    record { size = codes "4"; ext = []; payload = codes "Wiki" }
    ∷ record { size = codes "005"; ext = codes ";x"; payload = codes "pedia" }
    ∷ []

feed_run :
    (feed_all (http_reset idle) ((chunked_head ++ first_rest) ∷ pieces)).body ≡ codes "Wikipedia"
unfolding http_reset http_feed feed_loop feed_round header_round split_headers starts_with
    store_header headers_done begin_body http_parse_headers parse_status three_digits
    skip_only_spaces is_ascii_digit header_value name_here ascii_lower behind_colon line_value
    skip_blanks span_until value_has has_word capture_redirect find_location location_from size_byte
    is_hex hex_val chunk_round take_chunk crlf_round
feed_run = refl

chunked_head-Holds : Holds (chunked_head ++ first_rest) chunked_head first_rest
unfolding split_headers starts_with
chunked_head-Holds = record { split = refl; fits = omega arith }

chunked_head-is_chunked : (heads_of idle chunked_head).is_chunked ≡ true
unfolding http_reset http_parse_headers parse_status three_digits skip_only_spaces starts_with
    is_ascii_digit header_value name_here ascii_lower behind_colon line_value skip_blanks span_until
    value_has has_word capture_redirect find_location location_from
chunked_head-is_chunked = refl

wiki-IsChunk : IsChunk (record { size = codes "4"; ext = []; payload = codes "Wiki" })
unfolding is_hex hex_val ascii_lower
wiki-IsChunk = record {
  size = (refl, tt);
  ext = tt;
  value = refl;
  fits = omega arith;
  some = omega arith;
}

pedia-IsChunk : IsChunk (record { size = codes "005"; ext = codes ";x"; payload = codes "pedia" })
unfolding is_hex hex_val ascii_lower
pedia-IsChunk = record {
  size = (refl, (refl, (refl, tt)));
  ext = (refl, ((λ e. absurd (omega (arith, e))), tt));
  value = refl;
  fits = omega arith;
  some = omega arith;
}

zero-IsLast : IsLast (codes "0") []
unfolding is_hex hex_val ascii_lower
zero-IsLast = record { hex = (refl, tt); extension = tt; value = refl }

http_reset-chunked_example :
    ((feed_all (http_reset idle) ((chunked_head ++ first_rest) ∷ pieces)).body ≡ codes "Wikipedia")
    × ((feed_all (http_reset idle) ((chunked_head ++ first_rest) ∷ pieces)).parse_state ≡ 5)
http_reset-chunked_example =
    http_reset-chunked idle (chunked_head ++ first_rest) chunked_head first_rest pieces wiki
      (codes "0") [] (codes "\r\n") chunked_head-Holds chunked_head-is_chunked
      (wiki-IsChunk, (pedia-IsChunk, tt)) zero-IsLast refl

abbrev sized_head : Bytes
sized_head = codes "HTTP/1.1 404 Not Found\r\nContent-Length: 5\r\n\r\n"

sized_head-Holds : Holds (sized_head ++ codes "he") sized_head (codes "he")
unfolding split_headers starts_with
sized_head-Holds = record { split = refl; fits = omega arith }

sized_head-is_chunked : (heads_of idle sized_head).is_chunked ≡ false
unfolding http_reset http_parse_headers parse_status three_digits skip_only_spaces starts_with
    is_ascii_digit header_value name_here ascii_lower behind_colon line_value skip_blanks span_until
    value_has has_word capture_redirect find_location location_from
sized_head-is_chunked = refl

sized_head-content_len : (heads_of idle sized_head).content_len ≡ 5
unfolding http_reset http_parse_headers parse_status three_digits skip_only_spaces starts_with
    is_ascii_digit header_value name_here ascii_lower behind_colon line_value skip_blanks span_until
    value_has has_word capture_redirect find_location location_from length_loop
sized_head-content_len = refl

-- Two bytes more than the length have come.
http_reset-told_example :
    (feed_all (http_reset idle) ((sized_head ++ codes "he") ∷ codes "l" ∷ codes "lo!!" ∷ [])).body
    ≡ told (heads_of idle sized_head).content_len (codes "hello!!")
http_reset-told_example =
    http_reset-told idle (sized_head ++ codes "he") sized_head (codes "he")
      (codes "l" ∷ codes "lo!!" ∷ []) sized_head-Holds sized_head-is_chunked

abbrev at_chunk : Http
at_chunk = record idle { parse_state = 3; chunk_remain = 4 }

feed_all-joined_example :
    feed_all at_chunk (codes "Wi" ∷ codes "ki\r" ∷ codes "\n0\r" ∷ codes "\n" ∷ [])
    ≡ http_feed at_chunk (codes "Wiki\r\n0\r\n")
feed_all-joined_example =
    feed_all-joined at_chunk (codes "Wi" ∷ codes "ki\r" ∷ codes "\n0\r" ∷ codes "\n" ∷ [])
      (record { past = omega arith; limit = omega arith; lf = refl })

-- Together, the two pieces are a whole response.
abbrev halves : List Bytes
halves = codes "HTTP/1.1 200 OK\r\n\r" ∷ codes "\nhello" ∷ []

halves_whole : split_headers (joined halves) ≡ some (codes "HTTP/1.1 200 OK\r\n\r\n", codes "hello")
unfolding split_headers starts_with
halves_whole = refl

feed_all-IsWaiting_example : IsWaiting idle (feed_all idle halves)
unfolding split_headers starts_with
feed_all-IsWaiting_example = feed_all-IsWaiting idle halves refl (refl, (refl, tt))

abbrev moved_head : Bytes
moved_head = codes "HTTP/1.1 301 Moved\r\nLocation: https://a.b/c\r\n\r\n"

moved_run : (heads_of idle moved_head).redirect.domain ≡ codes "a.b"
unfolding http_reset http_parse_headers parse_status three_digits skip_only_spaces starts_with
    is_ascii_digit header_value name_here ascii_lower behind_colon line_value skip_blanks span_until
    value_has has_word capture_redirect find_location location_from follow parse_url parse_scheme
    parse_behind is_domain is_url_host_char host_chars has_dot path_at trim skip_spaces strip_prefix
    is_space
moved_run = refl

-- The name of a field is found inside another name.
odd_run :
    http_parse_headers (codes "HTTP/1.1 200 OK\r\nX-Content-Length: 5\r\n\r\n") idle.heads
    ≡ record (idle.heads) { status = 200; content_len = 5 }
unfolding http_parse_headers parse_status three_digits skip_only_spaces starts_with is_ascii_digit
    header_value name_here ascii_lower behind_colon line_value skip_blanks span_until value_has
    has_word capture_redirect find_location location_from length_loop
odd_run = refl
