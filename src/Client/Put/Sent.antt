-- ===== src/Client/Put/Sent.antt =====
-- put: what a server has been sent when the upload succeeds, and when a precondition fails.
use mathlib.Core.List.{Memᴰ}
use mathlib.Core.List.Memᴰ.{append_right}
use nanos3reader.Prelude.{
  ℕ, ◌≡◌, refl, sym, ap, ◌∙◌, subst, ◌≢◌, Bool, true, false, some, [], ◌++◌, arith, if◌then◌else◌,
  length, take, take-all, not,
}
use nanos3reader.Text.{is_empty, Text, codes, text_eq}
use nanos3reader.Result.{Result, ok, err, ◌>>=◌, >>=-eq-ok}
use nanos3reader.Uri.{Config, split_s3_uri, build_endpoint}
use nanos3reader.Sigv4.{CanonicalRequest, build_authorization, sha256_hex}
use nanos3reader.World.{World, Credentials}
use nanos3reader.Http.Wire.{CurlCode, Request, is_curl_ok}
use nanos3reader.Http.Sink.{capture_etags}
use nanos3reader.Http.Upload.{memory}
use nanos3reader.Http.Upload.Body.{base_of, upload_all-body}
use nanos3reader.Http.Request.{
  header, optional, has_body, sign_headers, Call, Reply, is_put, payload_hash_of, header_lines,
  final_rc, signed_request, send_body, receive, attempt,
}
use nanos3reader.Client.Calls.{Client, check_target, transferred, exchange}
use nanos3reader.Client.Put.{PutOptions, check_put, put_call, put_result, put}
use nanos3reader.Client.Replies.{check_target_unique, transferred-ok, exchange-ok}
use nanos3reader.Http.Wire.{read_error}

put_result-ok :
    (uri : Text) (options : PutOptions) (r : Result Reply) (etag : Text)
    → (put_result uri options r).etag ≡ ok etag
    → (reply : Reply) × (r ≡ ok reply) × (reply.code ≡ 200) × (reply.etag ≡ etag)
unfolding put_result
put_result-ok uri options (err e) etag h = absurd (cc)
put_result-ok uri options (ok r) etag h = (r, refl, ground arith, ground arith)

put_result-precondition :
    (uri : Text) (options : PutOptions) (r : Result Reply)
    → (put_result uri options r).precondition_failed ≡ true
    → (reply : Reply) × (r ≡ ok reply)
      × (reply.code ≡ 412)
      × ((etag : Text) → (put_result uri options r).etag ≢ ok etag)
unfolding put_result
put_result-precondition uri options (err e) h = absurd (cc)
put_result-precondition uri options (ok r) h = (r, refl, ground arith, λ etag q. ground arith)

-- libcurl ends without an error only when the announced body has gone out.
unfoldable pub SendsWhole : World → Type 0
SendsWhole w =
    (req : Request) (sent : Text) (s : w.State) (n : ℕ)
    → req.body_len ≡ some n
    → is_curl_ok (w.respond req sent s).0.rc ≡ true
    → length sent ≡ n

check_put-ok :
    (uri body : Text) (given : Bool) (options : PutOptions) (b : Text)
    → check_put uri body given options ≡ ok b
    → b ≡ body
unfolding check_put
check_put-ok uri body given options b h = ground arith

abbrev pub target_url : Config → Text × Text → Text
target_url cfg (bucket, key) = (build_endpoint cfg bucket key cfg.region).url

module _ (w : World) where
  open w use {State, amz_now, respond, sha256_raw}

  -- What is shown of a request that carried the body to the target, and of the answer to it. Its
  -- Authorization line signs a canonical request whose headers have the hash of the body.
  pub record Delivered (cfg : Config) (target : Text × Text) (body etag : Text) : Type 0 where
    pub req : Request
    pub at : State
    pub cred : Credentials
    pub signed : CanonicalRequest
    pub to_url : req.url ≡ target_url cfg target
    pub announced : req.body_len ≡ some (length body)
    pub hashed :
        Memᴰ (codes "x-amz-content-sha256: " ++ sha256_hex sha256_raw body) req.header_lines
    pub signed_hash :
        Memᴰ (header (codes "x-amz-content-sha256") (sha256_hex sha256_raw body)) signed.headers
    pub signed_payload : signed.payload_hash ≡ sha256_hex sha256_raw body
    pub authorized :
        Memᴰ
          (codes "Authorization: "
            ++ build_authorization sha256_raw signed cred.access_key cred.secret_key cfg.region
                (codes "s3")
                (amz_now at))
          req.header_lines
    pub accepted : (respond req body at).0.code ≡ 200
    pub answered : etag ≡ capture_etags [] (respond req body at).0.reply_headers

  -- The last header line.
  header_lines-authorized :
      (call : Call) (cred : Credentials) (payload_hash amz_date authz : Text)
      → Memᴰ (codes "Authorization: " ++ authz) (header_lines call cred payload_hash amz_date authz)
  unfolding header_lines
  header_lines-authorized call cred payload_hash amz_date authz = Memᴰ.tail (
      Memᴰ.tail (
        append_right call.extra_headers (
          append_right (optional (has_body call) (codes "Expect:")) (
            append_right (optional (not (is_empty call.range)) (codes "Range: " ++ call.range)) (
              append_right
                (optional (not (is_empty cred.session_token))
                  (codes "x-amz-security-token: " ++ cred.session_token))
                (Memᴰ.head refl))))))

  -- What a call for an upload signs.
  abbrev signed_put :
      Config → Credentials → Text → PutOptions → Text × Text → State → CanonicalRequest
  signed_put cfg cred body options target s =
      let call = put_call body options target in
      let ep = build_endpoint cfg target.0 target.1 cfg.region in
      let payload_hash = sha256_hex sha256_raw body in
      record {
        method = codes "PUT";
        uri = ep.path;
        query = [];
        headers = sign_headers call ep cred payload_hash (amz_now s);
        payload_hash = payload_hash;
      }

  signed_put-hash :
      (cfg : Config) (cred : Credentials) (body : Text) (options : PutOptions) (bucket key : Text)
      (s : State)
      → Memᴰ
          (header (codes "x-amz-content-sha256") (sha256_hex sha256_raw body))
          (signed_put cfg cred body options (bucket, key) s).headers
  unfolding sign_headers
  signed_put-hash cfg cred body options bucket key s = Memᴰ.tail (Memᴰ.head refl)

  signed_put-authorized :
      (cfg : Config) (cred : Credentials) (body : Text) (options : PutOptions) (bucket key : Text)
      (s : State)
      → Memᴰ
          (codes "Authorization: "
            ++ build_authorization sha256_raw
                (signed_put cfg cred body options (bucket, key) s)
                cred.access_key
                cred.secret_key
                cfg.region
                (codes "s3")
                (amz_now s))
          (signed_request w cfg cred (put_call body options (bucket, key)) s).header_lines
  unfolding signed_request payload_hash_of text_eq put_call
  signed_put-authorized cfg cred body options bucket key s =
      header_lines-authorized (put_call body options (bucket, key)) cred _ _ _

  signed_put-hashed :
      (cfg : Config) (cred : Credentials) (body : Text) (options : PutOptions) (bucket key : Text)
      (s : State)
      → Memᴰ
          (codes "x-amz-content-sha256: " ++ sha256_hex sha256_raw body)
          (signed_request w cfg cred (put_call body options (bucket, key)) s).header_lines
  unfolding signed_request header_lines payload_hash_of text_eq put_call
  signed_put-hashed cfg cred body options bucket key s = Memᴰ.tail (Memᴰ.head refl)

  signed_put-target :
      (cfg : Config) (cred : Credentials) (body : Text) (options : PutOptions) (bucket key : Text)
      (s : State)
      → let req = signed_request w cfg cred (put_call body options (bucket, key)) s in
        (req.url ≡ target_url cfg (bucket, key)) × (req.body_len ≡ some (length body))
  unfolding signed_request text_eq put_call
  signed_put-target cfg cred body options bucket key s = (refl, refl)

  -- The body of a put goes out of memory, and no read of it fails.
  send_body-put :
      (req : Request) (body : Text) (options : PutOptions) (bucket key : Text) (s : State)
      → let (u, sent) = send_body w req (put_call body options (bucket, key)) s in
        (u.failed ≢ true) × (length sent ≡ length body → sent ≡ body)
  unfolding send_body text_eq put_call base_of
  send_body-put req body options bucket key s =
      let (front, whole, short) =
        upload_all-body (memory body) (length body) (w.read_rooms req s) in
      let all : take (length body) body ≡ body = take-all (length body) body (omega arith) in
      (
        (λ f. let few = short f in omega arith),
        (λ e.
            front
            ∙ ap (λ (n : ℕ). take n (take (length body) body)) e
            ∙ ap (take (length body)) all
            ∙ all),
      )

  is_put-put_call :
      (body : Text) (options : PutOptions) (bucket key : Text)
      → is_put (put_call body options (bucket, key)) ≡ true
  unfolding text_eq put_call
  is_put-put_call body options bucket key = refl

  pub fine_transfer :
      (failed taken : Bool) (rc : CurlCode)
      → is_curl_ok (if failed then read_error else final_rc taken rc) ≡ true
      → is_curl_ok rc ≡ true
  unfolding is_curl_ok
  fine_transfer true taken rc h = absurd (ground arith)
  fine_transfer false true rc h = h
  fine_transfer false false rc h = absurd (ground arith)

  attempt-put_call :
      (cfg : Config) (cred : Credentials) (body : Text) (options : PutOptions) (bucket key : Text)
      (s : State)
      → SendsWhole w
      → let r = (attempt w cfg cred (put_call body options (bucket, key)) s).0.0 in
        r.code ≡ 200 → is_curl_ok r.rc ≡ true → Delivered cfg (bucket, key) body r.etag
  unfolding attempt SendsWhole
  attempt-put_call cfg cred body options bucket key s whole code fine =
      let call = put_call body options (bucket, key) in
      let req = signed_request w cfg cred call s in
      let (u, sent) = send_body w req call s in
      let (url, announced) = signed_put-target cfg cred body options bucket key s in
      let (sound, full) = send_body-put req body options bucket key s in
      let done =
        fine_transfer u.failed (receive w u.failed call (respond req sent s).0).1
          (respond req sent s).0.rc fine in
      let e : sent ≡ body = full (whole req sent s (length body) announced done) in
      record {
        req = req;
        at = s;
        cred = cred;
        signed = signed_put cfg cred body options (bucket, key) s;
        to_url = url;
        announced = announced;
        hashed = signed_put-hashed cfg cred body options bucket key s;
        signed_hash = signed_put-hash cfg cred body options bucket key s;
        signed_payload = refl;
        authorized = signed_put-authorized cfg cred body options bucket key s;
        accepted = subst (λ (x : Text). (respond req x s).0.code ≡ 200) e code;
        answered =
            rw (is_put-put_call body options bucket key)
              (ap (λ (x : Text). capture_etags [] (respond req x s).0.reply_headers) e);
      }

  -- An upload that succeeds has made a request to the target's URL that carried exactly the given
  -- bytes, with their length announced and their SHA-256 in a header line and among the headers that
  -- the Authorization line signs. The server answered 200, and the result is the ETag of that answer.
  -- libcurl must end without an error only when the announced body has gone out whole.
  pub put-Delivered :
      (c : Client) (uri bucket key body : Text) (given : Bool) (options : PutOptions) (s : State)
      (etag : Text)
      → split_s3_uri uri true ≡ ok (bucket, key)
      → SendsWhole w
      → (put w c uri body given options s).result.etag ≡ ok etag
      → Delivered c.cfg (bucket, key) body etag
  unfolding put
  put-Delivered c uri bucket key body given options s etag e whole h =
      let checked = check_target c uri true in
      let calls =
        λ (t : Text × Text). check_put uri body given options >>= λ b. ok (put_call b options t) in
      let (r, h1, code, tag) =
        put_result-ok uri options
          ((exchange w c (checked >>= calls) s).result >>= transferred w uri) etag h in
      let (r0, h2, through) =
        >>=-eq-ok (exchange w c (checked >>= calls) s).result (transferred w uri) h1 in
      let (same, fine) = transferred-ok w uri r0 r through in
      let (call, made, cred, at, from) = exchange-ok w c (checked >>= calls) s r0 h2 in
      let (t, target, made') = >>=-eq-ok checked calls made in
      let (b, is_body, made'') =
        >>=-eq-ok (check_put uri body given options) (λ b. ok (put_call b options t)) made' in
      let on_body : b ≡ body = check_put-ok uri body given options b is_body in
      let on_target = check_target_unique c uri true (bucket, key) t e target in
      let is_call : put_call body options (bucket, key) ≡ call = cc in
      let is_reply : r ≡ (attempt w c.cfg cred (put_call body options (bucket, key)) at).0.0 =
        same ∙ from ∙ sym (ap (λ (x : Call). (attempt w c.cfg cred x at).0.0) is_call) in
      subst (Delivered c.cfg (bucket, key) body) (sym (ap (λ (x : Reply). x.etag) is_reply) ∙ tag) (
        attempt-put_call c.cfg cred body options bucket key at whole
          (subst (λ (x : Reply). x.code ≡ 200) is_reply code)
          (subst (λ (x : Reply). is_curl_ok x.rc ≡ true) (sym same ∙ is_reply) fine))

  -- A request to a target's URL that was answered 412.
  pub record Conflicted (cfg : Config) (target : Text × Text) : Type 0 where
    pub req : Request
    pub sent : Text
    pub at : State
    pub to_url : req.url ≡ target_url cfg target
    pub status : (respond req sent at).0.code ≡ 412

  attempt-Conflicted :
      (cfg : Config) (cred : Credentials) (body : Text) (options : PutOptions) (bucket key : Text)
      (s : State)
      → (attempt w cfg cred (put_call body options (bucket, key)) s).0.0.code ≡ 412
      → Conflicted cfg (bucket, key)
  unfolding attempt
  attempt-Conflicted cfg cred body options bucket key s code =
      let call = put_call body options (bucket, key) in
      let req = signed_request w cfg cred call s in
      record {
        req = req;
        sent = (send_body w req call s).1;
        at = s;
        to_url = (signed_put-target cfg cred body options bucket key s).0;
        status = code;
      }

  -- Where put reports a failed precondition, the server answered 412 to a request to the URL of the
  -- target that the URI names (and the call itself failed): no put succeeds and reports that.
  pub put-precondition :
      (c : Client) (uri bucket key body : Text) (given : Bool) (options : PutOptions) (s : State)
      → split_s3_uri uri true ≡ ok (bucket, key)
      → (put w c uri body given options s).result.precondition_failed ≡ true
      → Conflicted c.cfg (bucket, key)
        × ((etag : Text) → (put w c uri body given options s).result.etag ≢ ok etag)
  unfolding put
  put-precondition c uri bucket key body given options s e h =
      let checked = check_target c uri true in
      let calls =
        λ (t : Text × Text). check_put uri body given options >>= λ b. ok (put_call b options t) in
      let (r, h1, code, failed) =
        put_result-precondition uri options
          ((exchange w c (checked >>= calls) s).result >>= transferred w uri) h in
      let (r0, h2, through) =
        >>=-eq-ok (exchange w c (checked >>= calls) s).result (transferred w uri) h1 in
      let (same, fine) = transferred-ok w uri r0 r through in
      let (call, made, cred, at, from) = exchange-ok w c (checked >>= calls) s r0 h2 in
      let (t, target, made') = >>=-eq-ok checked calls made in
      let (b, is_body, made'') =
        >>=-eq-ok (check_put uri body given options) (λ b. ok (put_call b options t)) made' in
      let on_target = check_target_unique c uri true (bucket, key) t e target in
      let is_call : put_call b options (bucket, key) ≡ call = cc in
      let is_reply : r ≡ (attempt w c.cfg cred (put_call b options (bucket, key)) at).0.0 =
        same ∙ from ∙ sym (ap (λ (x : Call). (attempt w c.cfg cred x at).0.0) is_call) in
      (
        attempt-Conflicted c.cfg cred b options bucket key at
            (subst (λ (x : Reply). x.code ≡ 412) is_reply code),
        failed,
      )
