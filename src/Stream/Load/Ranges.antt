-- ===== src/Stream/Load/Ranges.antt =====
-- What load_window leaves without the disk cache, where the servers honour ranges.
use nanos3reader.Prelude.{
  ℕ, zero, suc, ◌+◌, ◌^◌, ◌≤◌, ◌<◌, ◌≡◌, refl, sym, ◌∙◌, subst, inl, inr, Bool, true, false, not,
  ◌&&◌, ◌||◌, none, some, [], ◌++◌, arith, ltb, ◌==◌, Bool-cases, length, take, drop, ◌⊎◌,
}
use nanos3reader.Text.{Text, codes}
use nanos3reader.Uri.{Config}
use nanos3reader.World.{Credentials, is_valid}
use nanos3reader.Http.Wire.{is_curl_ok}
use nanos3reader.Credentials.Provider.{em_dash, diagnostic_of, get}
use nanos3reader.DiskCache.{Io}
use nanos3reader.Stream.Fetch.{
  past_end, broken, loaded, Object, capture_region, Outcome, is_redirect, may_retry, stream_request,
  fetch_failure, fetch_loop, fetch_loop-ends,
}
use nanos3reader.Stream.Buffer.{at_get, Buffer, install_window, fail, end_window, clear_error}
use nanos3reader.Stream.Buffer.Position.{
  install_window-empty, Placed, install_window-Placed, whole_window-Placed, end_window-Placed,
  clear_error-Placed,
}
use mathlib.Core.List.{flatten}
use nanos3reader.Stream.Load.{
  Around, World, fetch_start, cache_store, use_outcome, fetch_window, load_window,
}

module _ (w : World) (cfg : Config) (uri : Text) (object : Object) (bytes : Text) where
  open w use {State, respond}

  -- A reply to a range that starts at `start`, in a transfer that ended without an error, has the bytes
  -- asked for, or the whole object. It is 416 only at or over the end of the object.
  pub record Honours (start : ℕ) : Type 0 where
    pub partial :
        (cred : Credentials) (region : Text) (s : State)
        → is_curl_ok (respond (stream_request w cfg cred object region start s) [] s).0.rc ≡ true
        → ((respond (stream_request w cfg cred object region start s) [] s).0.code == 206) ≡ true
        → (flatten (respond (stream_request w cfg cred object region start s) [] s).0.chunks
            ≡ take object.read_ahead (drop start bytes))
          × (start ≤ length bytes)
    pub full :
        (cred : Credentials) (region : Text) (s : State)
        → is_curl_ok (respond (stream_request w cfg cred object region start s) [] s).0.rc ≡ true
        → ((respond (stream_request w cfg cred object region start s) [] s).0.code == 200) ≡ true
        → flatten (respond (stream_request w cfg cred object region start s) [] s).0.chunks ≡ bytes
    pub beyond :
        (cred : Credentials) (region : Text) (s : State)
        → is_curl_ok (respond (stream_request w cfg cred object region start s) [] s).0.rc ≡ true
        → ((respond (stream_request w cfg cred object region start s) [] s).0.code == 416) ≡ true
        → length bytes ≤ start

  -- A 200 that answers a range from `start` on in a transfer without an error.
  pub record SendsAll (start : ℕ) : Type 0 where
    pub cred : Credentials
    pub region : Text
    pub at : State
    pub clean :
        is_curl_ok (respond (stream_request w cfg cred object region start at) [] at).0.rc ≡ true
    pub status :
        ((respond (stream_request w cfg cred object region start at) [] at).0.code == 200) ≡ true

  unfoldable pub Carries : ℕ → Outcome → Type 0
  Carries start (loaded window true) =
      (window ≡ take object.read_ahead (drop start bytes)) × (start ≤ length bytes)
  Carries start (loaded window false) = (window ≡ bytes) × SendsAll start
  Carries start past_end = length bytes ≤ start
  Carries start (broken msg) = zero ≡ zero

  and-left : (a b : Bool) → (a && b) ≡ true → a ≡ true
  and-left a b h = ground arith

  and-right : (a b : Bool) → (a && b) ≡ true → b ≡ true
  and-right a b h = ground arith

  -- A body that was taken is one of a 206, or of a 200.
  taken-Carries :
      (start : ℕ) (cred : Credentials) (region : Text) (s : State)
      → Honours start
      → (is_curl_ok (respond (stream_request w cfg cred object region start s) [] s).0.rc
          && ((respond (stream_request w cfg cred object region start s) [] s).0.code == 200
              || (respond (stream_request w cfg cred object region start s) [] s).0.code == 206))
        ≡ true
      → Carries start (
          loaded
            (flatten (respond (stream_request w cfg cred object region start s) [] s).0.chunks)
            ((respond (stream_request w cfg cred object region start s) [] s).0.code == 206))
  unfolding Carries
  taken-Carries start cred region s hon h =
      let t = (respond (stream_request w cfg cred object region start s) [] s).0 in
      elim (Bool-cases (t.code == 206)) [
        | inl q ↦
            subst (λ x. Carries start (loaded (flatten t.chunks) x)) (sym q)
              (hon.partial cred region s (and-left (is_curl_ok t.rc) _ h) q)
        | inr q ↦
            let two : (t.code == 200) ≡ true = ground arith in
            let clean = and-left (is_curl_ok t.rc) _ h in
            subst (λ x. Carries start (loaded (flatten t.chunks) x)) (sym q)
              (
                hon.full cred region s clean two,
                record { cred = cred; region = region; at = s; clean = clean; status = two },
              )
      ]

  same-Carries :
      (start : ℕ) (x r : Outcome × Text × State)
      → Carries start x.0
      → some x ≡ some r
      → Carries start r.0
  same-Carries start x r v h =
      let q : x ≡ r = cc in subst (λ (y : Outcome × Text × State). Carries start y.0) q v

  fetch_loop-Carries :
      (fuel : ℕ) (cred : Credentials) (start : ℕ) (region : Text) (redirected : Bool) (attempt : ℕ)
      (s : State) (r : Outcome × Text × State)
      → Honours start
      → fetch_loop w fuel cfg cred object start region redirected attempt s ≡ some r
      → Carries start r.0
  unfolding fetch_loop Carries
  fetch_loop-Carries zero cred start region redirected attempt s r hon e = absurd (cc)
  fetch_loop-Carries (suc fuel) cred start region redirected attempt s r hon e =
      let t = (respond (stream_request w cfg cred object region start s) [] s).0 in
      let s' = (respond (stream_request w cfg cred object region start s) [] s).1 in
      elim (Bool-cases (is_curl_ok t.rc && (t.code == 200 || t.code == 206))) [
        | inl a ↦
            let e' = rw (fetch_loop, a) at e in
            same-Carries start _ r (taken-Carries start cred region s hon a) e'
        | inr a ↦ elim (Bool-cases (is_curl_ok t.rc && t.code == 416)) [
          | inl b ↦
              let e' = rw (fetch_loop, a, b) at e in
              same-Carries start (past_end, region, s') r
                (hon.beyond cred region s (and-left (is_curl_ok t.rc) (t.code == 416) b)
                  (and-right (is_curl_ok t.rc) (t.code == 416) b))
                e'
          | inr b ↦ elim (Bool-cases (not redirected && is_redirect cfg region t)) [
            | inl c ↦
                fetch_loop-Carries fuel cred start (capture_region [] t.reply_headers) true attempt
                  s' r hon (rw (fetch_loop, a, b, c) at e)
            | inr c ↦ elim (Bool-cases (may_retry t && ltb (attempt + 1) cfg.max_attempts)) [
              | inl d ↦
                  fetch_loop-Carries fuel cred start region redirected (attempt + 1) _ r hon
                    (rw (fetch_loop, a, b, c, d) at e)
              | inr d ↦
                  let e' = rw (fetch_loop, a, b, c, d) at e in
                  same-Carries start (broken (fetch_failure w t), region, s') r refl e'
            ]
          ]
        ]
      ]

  -- What a load for a position leaves: a window of the object with the get pointer at that position,
  -- which is not the end of the window unless that is empty or a 200 brought it; or after a failure
  -- no window.
  unfoldable pub Left : ℕ → Bool × Buffer × Around State → Type 0
  Left target (true, b, a) =
      Placed bytes target b
      × (a.cache.enabled ≡ false)
      × (at_get b ≡ none → (b.window_len ≡ 0) ⊎ SendsAll target)
  Left target (false, b, a) = (b.window_len ≡ 0) × (b.get ≡ none) × (a.cache.enabled ≡ false)

  module _ (io : Io) (fuel : ℕ) (some_ahead : 0 < object.read_ahead) where
    use_outcome-Left :
        (o : Outcome) (target : ℕ) (b : Buffer) (a : Around State)
        → a.cache.enabled ≡ false
        → length bytes < 2 ^ 64
        → target < 2 ^ 64
        → Carries target o
        → (r : Bool × Buffer × Around State) × ((use_outcome w cfg uri object io fuel o target
                target b a
              ≡ some r)
            × Left target r)
    unfolding use_outcome cache_store Carries Left fail at_get install_window end_window
    use_outcome-Left (loaded window true) target b a off h k v = (
      (true, clear_error (install_window object.read_ahead target target true window b), a),
      (
        rw (use_outcome, off) refl,
        (
          clear_error-Placed bytes target _
              (install_window-Placed bytes object.read_ahead target window b some_ahead v.0 h v.1),
          off,
          (λ gone. inl (
              install_window-empty bytes object.read_ahead target window b some_ahead v.0 h v.1
                gone)),
        ),
      ),
    )
    use_outcome-Left (loaded window false) target b a off h k v = (
      (true, clear_error (install_window object.read_ahead target target false window b), a),
      (
        rw (use_outcome, off) refl,
        (
          clear_error-Placed bytes target _ (
              subst
                (λ (x : Text).
                  Placed bytes target (install_window object.read_ahead target target false x b))
                (sym v.0) (whole_window-Placed bytes object.read_ahead target b h)),
          off,
          (λ gone. inr v.1),
        ),
      ),
    )
    use_outcome-Left past_end target b a off h k v = (
      (true, clear_error (end_window target b), a),
      (
        refl,
        (
          clear_error-Placed bytes target (end_window target b)
              (end_window-Placed bytes target b k v),
          off,
          (λ gone. inl refl),
        ),
      ),
    )
    use_outcome-Left (broken msg) target b a off h k v =
        ((false, fail msg b, a), (refl, (refl, refl, off)))

    load_window-fetch :
        (target : ℕ) (b : Buffer) (a : Around State)
        → a.cache.enabled ≡ false
        → load_window w cfg uri object io fuel target b a
          ≡ fetch_window w cfg uri object io fuel target target b a
    unfolding load_window fetch_start
    load_window-fetch target b a off = rw (load_window, off) refl

    -- Behind a loop that ended in `x`.
    fetched-Left :
        (target : ℕ) (b : Buffer) (a : Around State) (x : Outcome × Text × State)
        → a.cache.enabled ≡ false
        → length bytes < 2 ^ 64
        → target < 2 ^ 64
        → Honours target
        → is_valid (get w a.provider a.state).0 ≡ true
        → fetch_loop w
            (cfg.max_attempts + 2)
            cfg
            (get w a.provider a.state).0
            object
            target
            b.region
            false
            0
            (get w a.provider a.state).2
          ≡ some x
        → (r : Bool × Buffer × Around State) × ((fetch_window w cfg uri object io fuel target target
                b a
              ≡ some r)
            × Left target r)
    unfolding fetch_window
    fetched-Left target b a x off h k hon v e =
        let got = get w a.provider a.state in
        let carries =
          fetch_loop-Carries (cfg.max_attempts + 2) got.0 target b.region false 0 got.2 x hon e in
        let last =
          use_outcome-Left x.0 target (record b { region = x.1 })
            (record a { provider = got.1; state = x.2 }) off h k carries in
        (last.0, (rw (fetch_window, v, e) last.1.0, last.1.1))

    fetch_window-Left :
        (target : ℕ) (b : Buffer) (a : Around State)
        → a.cache.enabled ≡ false
        → length bytes < 2 ^ 64
        → target < 2 ^ 64
        → Honours target
        → (r : Bool × Buffer × Around State) × ((fetch_window w cfg uri object io fuel target target
                b a
              ≡ some r)
            × Left target r)
    unfolding fetch_window Left fail
    fetch_window-Left target b a off h k hon =
        let got = get w a.provider a.state in
        elim (Bool-cases (is_valid got.0)) [
          | inl v ↦
              let ends =
                fetch_loop-ends w (cfg.max_attempts + 2) cfg got.0 object target b.region false 0
                  got.2 (omega arith) in
              fetched-Left target b a ends.0 off h k hon v ends.1
          | inr v ↦
              let msg =
                codes "missing AWS credentials "
                ++ (em_dash ++ (codes " " ++ diagnostic_of got.1)) in
              (
                (false, fail msg b, record a { provider = got.1; state = got.2 }),
                (rw (fetch_window, v) refl, (refl, refl, off)),
              )
        ]

    -- Without the disk cache, and with servers that honour ranges, a load always ends, whatever fails:
    -- it succeeds with a window of the object whose get pointer is at the position asked for, or it
    -- fails and leaves no window and no get pointer.
    pub load_window-Left :
        (target : ℕ) (b : Buffer) (a : Around State)
        → a.cache.enabled ≡ false
        → length bytes < 2 ^ 64
        → target < 2 ^ 64
        → Honours target
        → (r : Bool × Buffer × Around State) × ((load_window w cfg uri object io fuel target b a
              ≡ some r)
            × Left target r)
    load_window-Left target b a off h k hon =
        let fetched = fetch_window-Left target b a off h k hon in
        (fetched.0, (load_window-fetch target b a off ∙ fetched.1.0, fetched.1.1))
