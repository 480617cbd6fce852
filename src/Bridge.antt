-- ===== src/Bridge.antt =====
-- Requests to the host bridge: the paths and bodies that runtime/src/main.rs builds
-- (`append_urlencoded`, `decode_shell_escapes` and the `build_m5_…` and `build_m6_…` functions).
pub mod Bodies
use mini_agent_os.Ascii.{hex_upper, is_url_unreserved}
use mini_agent_os.Base.{
  ℕ, suc, ◌+◌, ◌/◌, ◌%◌, Bool, true, false, [], ◌∷◌, ltb, ◌==◌, if◌then◌else◌, length, Bytes, codes,
}
use mini_agent_os.Buffer.{Out, fresh, has_room, fits, put, append_bytes}
use mini_agent_os.Decimal.{append_u64_dec}
use mini_agent_os.Json.Escape.{append_json_escaped}

-- What `append_urlencoded` stores for one byte.
unfoldable pub url_byte : ℕ → Bytes
url_byte b =
    if is_url_unreserved b then b ∷ [] else b'%' ∷ hex_upper (b / 16) ∷ hex_upper (b % 16) ∷ []

-- The loop ends at the first byte that does not fit.
unfoldable pub append_urlencoded : Out → Bytes → Out
append_urlencoded o [] = o
append_urlencoded o (b ∷ src) =
    let rest = append_urlencoded (put o (url_byte b)) src in
    if has_room o then if fits o (length (url_byte b)) then rest else o else o

-- `percent_encode` of oauth.rs: the same loop over its own cursor `j`, into `size` bytes.
unfoldable pub percent_encode : ℕ → Bytes → Bytes
percent_encode size src = (append_urlencoded (fresh size) src).bytes

-- The byte that `\e` stands for in an argument of the shell.
unfoldable pub shell_escape : ℕ → ℕ
shell_escape e =
    if e == b'n' then b'\n' else if e == b'r' then b'\r' else if e == b't' then b'\t' else e

-- `decode_shell_escapes`: a backslash at the end of the input stands for itself.
unfoldable pub decode_shell_escapes : Out → Bytes → Out
decode_shell_escapes o [] = o
decode_shell_escapes o (b ∷ []) = if has_room o then put o (b ∷ []) else o
decode_shell_escapes o (b ∷ e ∷ src) =
    let plain = decode_shell_escapes (put o (b ∷ [])) (e ∷ src) in
    let escaped = decode_shell_escapes (put o (shell_escape e ∷ [])) src in
    if has_room o then if b == b'\\' then escaped else plain else o

unfoldable pub build_m5_list_path : Out → Bytes → Out
build_m5_list_path o path =
    let o1 = append_bytes o (codes "/workspace/list?path=") in
    let o2 = append_urlencoded o1 path in append_bytes o2 (codes "&depth=3")

unfoldable pub build_m5_read_path : Out → Bytes → Out
build_m5_read_path o path =
    let o1 = append_bytes o (codes "/workspace/read?path=") in
    let o2 = append_urlencoded o1 path in append_bytes o2 (codes "&offset=0&limit=1024")

unfoldable pub build_m5_output_path : Out → Bytes → Out
build_m5_output_path o process_id =
    append_urlencoded (append_bytes o (codes "/process/output?id=")) process_id

unfoldable pub build_m6_search_path : Out → Bytes → Out
build_m6_search_path o query =
    let o1 = append_bytes o (codes "/search/web?query=") in
    let o2 = append_urlencoded o1 query in append_bytes o2 (codes "&top_k=3")

unfoldable pub build_m5_write_body : Out → Bytes → Bytes → Out
build_m5_write_body o path content =
    let o1 = append_bytes o (codes "{\"path\":\"") in
    let o2 = append_json_escaped o1 path in
    let o3 = append_bytes o2 (codes "\",\"content\":\"") in
    let o4 = append_json_escaped o3 content in
    append_bytes o4 (codes "\",\"create\":true,\"overwrite\":true}")

unfoldable pub build_m5_patch_body : Out → Bytes → Out
build_m5_patch_body o patch =
    let o1 = append_bytes o (codes "{\"patch\":\"") in
    let o2 = append_json_escaped o1 patch in append_bytes o2 (codes "\"}")

unfoldable pub build_m5_run_python_body : Out → Bytes → ℕ → Out
build_m5_run_python_body o path timeout_sec =
    let o1 = append_bytes o (codes "{\"path\":\"") in
    let o2 = append_json_escaped o1 path in
    let o3 = append_bytes o2 (codes "\",\"timeout_sec\":") in
    let o4 = append_u64_dec o3 timeout_sec in append_bytes o4 (codes "}")
