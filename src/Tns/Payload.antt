-- ===== src/Tns/Payload.antt =====
-- The handlers of a data packet's payload, for the versions 313 and 314.
use tnsparser.Base.{
  ℕ, ◌+◌, ◌-◌, ◌||◌, Option, some, List, [], ◌∷◌, ltb, ◌==◌, if◌then◌else◌, length, get_elem?, take,
  drop, ◌>>=◌,
}
use tnsparser.Visible.{parse_continuous_visible_characters}
use tnsparser.Wire.{c_string}
use tnsparser.Session.{Direction, request, response, TnsSession, stat_loging_in}
use tnsparser.Tns.Types.{
  header, Done, success, return_status, sql, loging_on, client_platform, server_banner,
  client_version, server_version, plain_status, query_sql, plain_client_platform,
  plain_server_platform, plain_client_version, plain_server_version,
}

-- The length that is printed, at most sizeof(buf) - 1, and the text that snprintf leaves in a
-- buffer: one character less than that length, of the string behind the pointer.
unfoldable pub clipped : List ℕ → ℕ → ℕ → Option (ℕ × List ℕ)
clipped pkt len size = do
  f ← parse_continuous_visible_characters pkt len
  s ← c_string (drop f.ptr pkt)
  let n = if ltb f.outlen (size - 1) then f.outlen else size - 1
  some (n, take (n - 1) s)

unfoldable pub tns_313_rs : List ℕ → ℕ → TnsSession → Option Done
tns_313_rs pkt len sess =
    if len == 0
    then success sess []
    else (clipped pkt len 128 >>= λ (n, s). success sess (return_status (header sess) n s ∷ []))

-- The marker byte decides between a query and a login.
unfoldable pub tns_313_oci : List ℕ → ℕ → TnsSession → Option Done
tns_313_oci pkt len sess =
    if len == 0
    then success sess []
    else (get_elem? pkt 3 >>= λ marker.
        if marker == 0x5e
        then (clipped pkt len 1024 >>= λ (n, s). success sess (sql (header sess) n s ∷ []))
        else (if marker == 0x73
            then success (record sess { state = stat_loging_in }) (loging_on (header sess) ∷ [])
            else success sess []))

-- The second of the strings from pkt + 3 on.
unfoldable pub second_string : List ℕ → Option (List ℕ)
second_string pkt = do first ← c_string (drop 3 pkt); c_string (drop (3 + (length first + 1)) pkt)

abbrev by_dir {ℓ} : {A : Type ℓ} → Direction → A → A → A
by_dir request a b = a
by_dir response a b = b

unfoldable pub tns_313_sp : List ℕ → ℕ → TnsSession → Option Done
tns_313_sp pkt len sess =
    if len == 0
    then success sess []
    else (second_string pkt >>= λ s. success sess (
        by_dir sess.cur_dir (client_platform (header sess) s) (server_banner (header sess) s) ∷ []))

-- memcpy of the four bytes at pkt + 8.
unfoldable pub version_bytes : List ℕ → Option (ℕ × ℕ × ℕ × ℕ)
version_bytes pkt = do
  a ← get_elem? pkt 8
  b ← get_elem? pkt 9
  c ← get_elem? pkt 10
  d ← get_elem? pkt 11
  some (a, b, c, d)

unfoldable pub tns_313_sns : List ℕ → ℕ → TnsSession → Option Done
tns_313_sns pkt len sess =
    if len == 0
    then success sess []
    else (version_bytes pkt >>= λ (a, b, c, d). success sess (
        by_dir sess.cur_dir (client_version (header sess) a b c d)
          (server_version (header sess) a b c d)
        ∷ []))

-- The length of the longest run with one more, and the whole string that starts with the run.
unfoldable pub unclipped : List ℕ → ℕ → Option (ℕ × List ℕ)
unclipped pkt len = do
  f ← parse_continuous_visible_characters pkt len
  s ← c_string (drop f.ptr pkt)
  some (f.outlen, s)

unfoldable pub tns_314_rs : List ℕ → ℕ → TnsSession → Option Done
tns_314_rs pkt len sess =
    if len == 0
    then success sess []
    else (get_elem? pkt 3 >>= λ marker.
        if (marker == 0x5e) || (marker == 0x04)
        then (unclipped pkt len >>= λ (n, s). success sess (plain_status n s ∷ []))
        else success sess [])

unfoldable pub tns_314_oci : List ℕ → ℕ → TnsSession → Option Done
tns_314_oci pkt len sess =
    if len == 0
    then success sess []
    else (get_elem? pkt 3 >>= λ marker.
        if marker == 0x5e
        then (unclipped pkt len >>= λ (n, s). success sess (query_sql n s ∷ []))
        else success sess [])

unfoldable pub tns_314_sp : List ℕ → ℕ → TnsSession → Option Done
tns_314_sp pkt len sess =
    if len == 0
    then success sess []
    else (second_string pkt >>= λ s.
        success sess (by_dir sess.cur_dir (plain_client_platform s) (plain_server_platform s) ∷ []))

unfoldable pub tns_314_sns : List ℕ → ℕ → TnsSession → Option Done
tns_314_sns pkt len sess =
    if len == 0
    then success sess []
    else (version_bytes pkt >>= λ (a, b, c, d).
        success sess
          (by_dir sess.cur_dir (plain_client_version a b c d) (plain_server_version a b c d) ∷ []))
