-- ===== src/Net/Http/Begin.antt =====
-- The headers of a response, for `http_reset` and `http_feed` of runtime/src/main.rs: where they end,
-- and the reader that has read them.
use mathlib.Core.Path.{subst}
use mini_agent_os.Ascii.{starts_with, is_ascii_digit}
use mini_agent_os.Base.{
  ℕ, suc, ◌+◌, ◌-◌, ◌*◌, ◌%◌, ◌^◌, ◌≤◌, ◌<◌, true, false, [], ◌∷◌, Option, none, some, ltb, leb,
  ◌==◌, length, Bytes, ◌≡◌, refl, sym, ap, ◌∙◌, arith, Bool-cases, Option-cases, codes, ◌||◌, inl,
  inr, length-drop,
}
use mini_agent_os.Net.Http.Chunks.{at_size}
use mini_agent_os.Net.Http.Headers.{
  Heads, http_parse_headers, capture_redirect, UrlParts, find_location, follow, header_value,
  length_loop, length_or, max_redirects, parse_url, redir_domain_max, redir_path_max,
}
use mini_agent_os.Net.Http.Sized.{at_body}
use mini_agent_os.Net.Http.Steps.{Ready}
use mini_agent_os.Net.Http.{
  Http, usize_max, blank_line, cons_head, split_headers, http_reset, begin_body,
}

-- What stands behind the headers is shorter than the text.
abbrev pub Behind : Option (Bytes × Bytes) → ℕ → Type 0
Behind none n = Unit
Behind (some split) n = length split.1 < n

cons_head-Behind :
    (b : ℕ) (o : Option (Bytes × Bytes)) (n : ℕ) → Behind o n → Behind (cons_head b o) (suc n)
cons_head-Behind b none n h = tt
cons_head-Behind b (some split) n h = omega arith

pub split_headers-Behind : (s : Bytes) → Behind (split_headers s) (length s)
unfolding split_headers
split_headers-Behind [] = tt
split_headers-Behind (b ∷ s) = elim (Bool-cases (starts_with (b ∷ s) blank_line)) [
  | inl e ↦ rw e (omega (arith, length-drop 3 s))
  | inr e ↦ rw e (cons_head-Behind b (split_headers s) (length s) (split_headers-Behind s))
]

length_loop_fits : (s : Bytes) (v : ℕ) → v ≤ usize_max → length_loop v s ≤ usize_max
unfolding length_loop
length_loop_fits [] v h = h
length_loop_fits (b ∷ s) v h = elim (Bool-cases (is_ascii_digit b)) [
  | inl e ↦ rw e (length_loop_fits s ((v * 10 + (b - b'0')) % 2 ^ 64) (omega arith))
  | inr e ↦ rw e (length_loop_fits s v h)
]

length_or_fits : (o : Option (Bytes × Bytes)) → length_or 0 o ≤ usize_max
length_or_fits none = omega arith
length_or_fits (some value) = length_loop_fits value.0 0 (omega arith)

follow-content_len : (p : Option UrlParts) (h : Heads) → (follow p h).content_len ≡ h.content_len
unfolding follow
follow-content_len none h = refl
follow-content_len (some parts) h =
    elim (Bool-cases
      (ltb redir_domain_max (length parts.domain) || ltb redir_path_max (length parts.path))) [
        | inl e ↦ rw e refl
        | inr e ↦ rw e refl
      ]

capture_redirect-content_len :
    (buf : Bytes) (h : Heads) → (capture_redirect buf h).content_len ≡ h.content_len
unfolding capture_redirect
capture_redirect-content_len buf h =
    elim (Bool-cases
      (h.redirect.oauth_active || leb max_redirects h.redirect.redirects || h.redirect.pending)) [
        | inl e ↦ rw e refl
        | inr e ↦ rw e (elim (Option-cases (find_location buf)) [
          | inl n ↦ rw n refl
          | inr (value, f) ↦ rw f (follow-content_len (parse_url value) h)
        ])
      ]

pub http_parse_headers_fits :
    (buf : Bytes) (h : Heads)
    → h.content_len ≡ 0
    → (http_parse_headers buf h).content_len ≤ usize_max
unfolding http_parse_headers
http_parse_headers_fits buf h z =
    let field = header_value buf (codes "content-length") in
    subst (λ (n : ℕ). n ≤ usize_max)
      (sym (capture_redirect-content_len buf _ ∙ ap (λ (n : ℕ). length_or n field) z))
      (length_or_fits field)

-- What the headers `head` tell.
abbrev pub heads_of : Http → Bytes → Heads
heads_of s head = http_parse_headers head (http_reset s).heads

-- The reader that has read them.
abbrev pub read_headers : Heads → Http → Bytes → Http
read_headers heads s head = begin_body heads (record (http_reset s) { header = head })

pub read_headers-chunked :
    (heads : Heads) (s : Http) (head : Bytes)
    → heads.is_chunked ≡ true
    → read_headers heads s head
      ≡ at_size (read_headers heads s head) (read_headers heads s head).body 0
unfolding begin_body http_reset
read_headers-chunked heads s head e = elim (Bool-cases (heads.status == 0)) [
  | inl z ↦ rw (z, e) refl
  | inr z ↦ rw (z, e) refl
]

pub read_headers-told :
    (heads : Heads) (s : Http) (head : Bytes)
    → heads.is_chunked ≡ false
    → read_headers heads s head ≡ at_body (read_headers heads s head)
unfolding begin_body http_reset
read_headers-told heads s head e = elim (Bool-cases (heads.status == 0)) [
  | inl z ↦ rw (z, e) refl
  | inr z ↦ rw (z, e) refl
]

-- What the reader of a body has of the headers.
pub record IsBegun (heads : Heads) (s t : Http) : Type 0 where
  pub told : t.heads ≡ heads
  pub body : t.body ≡ s.body
  pub lf : t.chunk_expect_lf ≡ false

pub read_headers-IsBegun :
    (heads : Heads) (s : Http) (head : Bytes) → IsBegun heads s (read_headers heads s head)
unfolding begin_body http_reset
read_headers-IsBegun heads s head = elim (Bool-cases (heads.status == 0)) [
  | inl z ↦ rw z (record { told = refl; body = refl; lf = refl })
  | inr z ↦ rw z (record { told = refl; body = refl; lf = refl })
]

pub Ready-read_headers :
    (heads : Heads) (s : Http) (head : Bytes)
    → heads.content_len ≤ usize_max
    → Ready (read_headers heads s head)
unfolding begin_body http_reset
Ready-read_headers heads s head h = record {
  past = ground arith;
  limit = ground arith;
  lf = ground arith;
}
