-- ===== src/Client/Read/Served.antt =====
-- read_range against a server that answers ranges: which bytes a successful read has.
use mathlib.Core.List.{Memᴰ, flatten}
use nanos3reader.Prelude.{
  ℕ, ◌+◌, ◌-◌, ◌≤◌, ◌≡◌, refl, sym, ap, ◌∙◌, subst, ◌≢◌, inl, inr, Bool, true, some, List, [], ◌++◌,
  arith, ◌==◌, Bool-cases, length, take, drop,
}
use nanos3reader.Text.{Text, codes, text_eq, to_string, uint64_max}
use nanos3reader.Result.{ok, ◌>>=◌, >>=-eq-ok}
use nanos3reader.Uri.{Config, split_s3_uri, build_endpoint}
use nanos3reader.World.{World, Credentials}
use nanos3reader.Http.Wire.{CurlCode, Request, is_curl_ok}
use nanos3reader.Http.Sink.{Sink, sink_all, new_sink}
use nanos3reader.Http.Sink.Limits.{sink_all-partial}
use nanos3reader.Http.Request.{
  Call, Reply, header_lines, final_rc, signed_request, send_body, receive, attempt,
}
use nanos3reader.Client.Calls.{Client, transferred, exchange}
use nanos3reader.Client.Read.{last_byte, check_range, range_call, range_result, read_range}
use nanos3reader.Client.Replies.{check_target-of_split, transferred-ok, exchange-ok}

-- The text of the Range header for the bytes from `a` to `b`.
abbrev pub range_text : ℕ → ℕ → Text
range_text a b = codes "bytes=" ++ (to_string a ++ (codes "-" ++ to_string b))

-- What the server of the object promises for a URL and a range: a complete 206 reply to a request
-- with that Range header has the bytes that it names, as far as the object has them.
unfoldable pub ServesRange : World → Text → Text → ℕ → ℕ → Type 0
ServesRange w url object a b =
    (req : Request) (sent : Text) (s : w.State)
    → req.url ≡ url
    → Memᴰ (codes "Range: " ++ range_text a b) req.header_lines
    → (w.respond req sent s).0.code ≡ 206
    → is_curl_ok (w.respond req sent s).0.rc ≡ true
    → flatten (w.respond req sent s).0.chunks ≡ take (b + 1 - a) (drop a object)

-- A complete 206 reply leaves what it sent in the destination.
received_partial :
    (code : ℕ) (rc : CurlCode) (chunks : List Text) (n : ℕ)
    → code ≡ 206
    → is_curl_ok (final_rc (sink_all code (new_sink (some n)) chunks).1 rc) ≡ true
    → (is_curl_ok rc ≡ true) × ((sink_all code (new_sink (some n)) chunks).0.dst ≡ flatten chunks)
unfolding is_curl_ok
received_partial code rc chunks n e fine =
    let taken : (sink_all code (new_sink (some n)) chunks).1 ≡ true =
      elim (Bool-cases (sink_all code (new_sink (some n)) chunks).1) [
        | inl q ↦ q
        | inr q ↦ absurd (ground arith)
      ] in
    (
      ground arith,
      subst (λ (k : ℕ). (sink_all k (new_sink (some n)) chunks).0.dst ≡ flatten chunks) (sym e)
          (ap (λ (k : Sink). k.dst)
            (sink_all-partial n (new_sink (some n)) chunks refl
              (subst (λ (k : ℕ). (sink_all k (new_sink (some n)) chunks).1 ≡ true) e taken))),
    )

last_byte-exact :
    (offset n : ℕ) → n ≢ 0 → offset + n ≤ uint64_max + 1 → last_byte offset n ≡ offset + n - 1
unfolding last_byte
last_byte-exact offset n h k = omega arith

range_result-ok :
    (uri : Text) (offset n : ℕ) (r : Reply) (b : Text)
    → range_result uri offset n r ≡ ok b
    → (r.code ≡ 206) × (b ≡ r.dst) × (length r.dst ≡ n)
unfolding range_result
range_result-ok uri offset n r b h = of_tests r.code r.dst h
  where
    of_tests :
        (code : ℕ) (dst : Text)
        → range_result uri offset n (record r { code = code; dst = dst }) ≡ ok b
        → (code ≡ 206) × (b ≡ dst) × (length dst ≡ n)
    of_tests code dst h = ground arith

check_range-ok :
    (uri : Text) (offset n last : ℕ) (given : Bool)
    → n ≢ 0
    → n ≤ uint64_max
    → check_range uri offset n given ≡ ok last
    → last ≡ offset + n - 1
unfolding check_range last_byte
check_range-ok uri offset n last given k fits h = ground arith

module _ (w : World) (object : Text) where
  open w use {State}

  abbrev pub target_url : Config → Text × Text → Text
  target_url cfg (bucket, key) = (build_endpoint cfg bucket key cfg.region).url

  signed_request-url :
      (cfg : Config) (cred : Credentials) (bucket key : Text) (offset n last : ℕ) (s : State)
      → (signed_request w cfg cred (range_call offset n (bucket, key) last) s).url
        ≡ target_url cfg (bucket, key)
  unfolding signed_request
  signed_request-url cfg cred bucket key offset n last s = refl

  signed_request-range :
      (cfg : Config) (cred : Credentials) (bucket key : Text) (offset n last : ℕ) (s : State)
      → Memᴰ
          (codes "Range: " ++ range_text offset last)
          (signed_request w cfg cred (range_call offset n (bucket, key) last) s).header_lines
  unfolding signed_request header_lines text_eq
  signed_request-range cfg cred bucket key offset n last s = Memᴰ.tail (Memᴰ.tail (Memᴰ.head refl))

  -- One attempt at the range's call: a complete 206 reply leaves the range in the destination.
  attempt-range_call :
      (cfg : Config) (cred : Credentials) (bucket key : Text) (offset n last : ℕ) (s : State)
      → ServesRange w (target_url cfg (bucket, key)) object offset last
      → let r = (attempt w cfg cred (range_call offset n (bucket, key) last) s).0.0 in
        r.code ≡ 206
        → is_curl_ok r.rc ≡ true
        → r.dst ≡ take (last + 1 - offset) (drop offset object)
  unfolding attempt send_body receive text_eq ServesRange
  attempt-range_call cfg cred bucket key offset n last s serves code fine =
      let call = range_call offset n (bucket, key) last in
      let req = signed_request w cfg cred call s in
      let t = (w.respond req [] s).0 in
      let (done, e) = received_partial t.code t.rc t.chunks n code fine in
      e
      ∙ serves req [] s (signed_request-url cfg cred bucket key offset n last s)
          (signed_request-range cfg cred bucket key offset n last s) code done

  -- The part of read_range behind its checks of the target and of `n`.
  read_range-request :
      (c : Client) (uri bucket key : Text) (offset n : ℕ) (given : Bool) (s : State) (bytes : Text)
      → n ≢ 0
      → n ≤ uint64_max
      → ServesRange w (target_url c.cfg (bucket, key)) object offset (offset + n - 1)
      → ((exchange w c
            (check_range uri offset n given >>= λ last. ok (range_call offset n (bucket, key) last))
            s).result
          >>= transferred w uri
          >>= range_result uri offset n)
        ≡ ok bytes
      → (bytes ≡ take n (drop offset object)) × (length bytes ≡ n)
  read_range-request c uri bucket key offset n given s bytes k fits serves h =
      let asked =
        check_range uri offset n given >>= λ last. ok (range_call offset n (bucket, key) last) in
      let (r', h1, done) =
        >>=-eq-ok ((exchange w c asked s).result >>= transferred w uri) (range_result uri offset n)
          h in
      let (r, h2, through) = >>=-eq-ok (exchange w c asked s).result (transferred w uri) h1 in
      let (same, fine) = transferred-ok w uri r r' through in
      let (code, here, size) = range_result-ok uri offset n r' bytes done in
      let (call, made, cred, at, from) = exchange-ok w c asked s r h2 in
      let (last, ranged, called) =
        >>=-eq-ok (check_range uri offset n given)
          (λ last. ok (range_call offset n (bucket, key) last)) made in
      let at_last : last ≡ offset + n - 1 = check_range-ok uri offset n last given k fits ranged in
      let is_call : range_call offset n (bucket, key) last ≡ call = cc in
      let is_reply : r' ≡ (attempt w c.cfg cred (range_call offset n (bucket, key) last) at).0.0 =
        same ∙ from ∙ sym (ap (λ (x : Call). (attempt w c.cfg cred x at).0.0) is_call) in
      let served =
        attempt-range_call c.cfg cred bucket key offset n last at
          (subst (ServesRange w (target_url c.cfg (bucket, key)) object offset) (sym at_last)
            serves)
          (subst (λ (x : Reply). x.code ≡ 206) is_reply code)
          (subst (λ (x : Reply). is_curl_ok x.rc ≡ true) (sym same ∙ is_reply) fine) in
      let count : last + 1 - offset ≡ n = omega arith in
      (
        here
            ∙ ap (λ (x : Reply). x.dst) is_reply
            ∙ served
            ∙ ap (λ (m : ℕ). take m (drop offset object)) count,
        ap length here ∙ size,
      )

  -- Against such a server, a read of a range that does not pass 2 ^ 64 gives, where it succeeds,
  -- exactly the `n` bytes of the object that stand at the offset.
  pub read_range-bytes :
      (c : Client) (uri bucket key : Text) (offset n : ℕ) (given : Bool) (s : State) (bytes : Text)
      → n ≤ uint64_max
      → split_s3_uri uri true ≡ ok (bucket, key)
      → ServesRange w (target_url c.cfg (bucket, key)) object offset (offset + n - 1)
      → (read_range w c uri offset n given s).result ≡ ok bytes
      → (bytes ≡ take n (drop offset object)) × (length bytes ≡ n)
  unfolding read_range
  read_range-bytes c uri bucket key offset n given s bytes fits e serves h =
      elim (check_target-of_split c uri true (bucket, key) e) [
        | inr (f, q) ↦ let bad = rw (q, read_range) at h in absurd (cc)
        | inl q ↦ elim (Bool-cases (n == 0)) [
          | inl z ↦
              let b = rw (q, read_range, z) at h in
              let n0 : n ≡ 0 = ground arith in
              let nil : [] ≡ bytes = cc in rw (sym nil, n0) (refl, refl)
          | inr z ↦
              read_range-request c uri bucket key offset n given s bytes (ground arith) fits serves
                (rw (q, read_range, z) at h)
        ]
      ]
