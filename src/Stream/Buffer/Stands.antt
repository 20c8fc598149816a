-- ===== src/Stream/Buffer/Stands.antt =====
-- The buffer as a cursor: what its window and get pointer say of a position in the object.
use nanos3reader.Prelude.{
  ℕ, ◌+◌, ◌≤◌, ◌<◌, ◌≡◌, refl, subst, inl, inr, true, false, none, some, arith, ltb, ◌==◌, ltb→lt,
  Bool-cases, Option-cases, length, get_elem?, get_elem?-none, get_elem?-lt, get_elem?-some,
}
use nanos3reader.Text.{Text}
use nanos3reader.Uri.{Config}
use nanos3reader.Stream.Buffer.{
  Buffer, new_buffer, distance, cur_pos, at_get, in_window, move_get, clear_error,
}
use nanos3reader.Stream.Buffer.Window.{Shows, at_get-object, move_get-Shows}
use nanos3reader.Stream.Buffer.Position.{Placed}

-- std::streambuf's sbumpc moves the get pointer over the byte that underflow gave.
abbrev pub bump : Buffer → Buffer
bump b = record b { get = some (distance b.get + 1) }

module _ (bytes : Text) where
  -- The get pointer is at the position `p` of the object.
  pub record Stands (p : ℕ) (b : Buffer) : Type 0 where
    pub shows : Shows bytes b
    pub here : b.window_start + distance b.get ≡ p
    pub ends : b.reached_eof ≡ true → length bytes ≤ b.window_start + b.window_len
    pub empty : b.get ≡ none → b.window_len ≡ 0
    pub within : p ≤ length bytes

  pub Placed-Stands : (p : ℕ) (b : Buffer) → p ≤ length bytes → Placed bytes p b → Stands p b
  Placed-Stands p b h v = record {
    shows = v.shows;
    here = v.here h;
    ends = v.ends;
    empty = v.empty;
    within = h;
  }

  pub new_buffer-Stands : (cfg : Config) → Stands 0 (new_buffer cfg)
  new_buffer-Stands cfg = record {
    shows = record { bytes = refl; whole = omega arith; inside = omega arith; fits = omega arith };
    here = refl;
    ends = λ h. absurd (cc);
    empty = λ h. refl;
    within = omega arith;
  }

  at_get-below : (b : Buffer) (c : ℕ) → at_get b ≡ some c → distance b.get < b.window_len
  unfolding at_get
  at_get-below b c h = elim (Option-cases b.get) [
    | inl e ↦ let h' = rw (at_get, e) at h in absurd (cc)
    | inr (g, e) ↦ elim (Bool-cases (ltb g b.window_len)) [
      | inl l ↦ rw e (ltb→lt g b.window_len l)
      | inr l ↦ let h' = rw (at_get, e, l) at h in absurd (cc)
    ]
  ]

  pub at_get-end :
      (p : ℕ) (b : Buffer) → Stands p b → at_get b ≡ none → b.window_start + b.window_len ≡ p
  unfolding at_get
  at_get-end p b v h = elim (Option-cases b.get) [
    | inl e ↦ let at : b.window_start + 0 ≡ p = rw e at v.here in omega (arith, v.empty e)
    | inr (g, e) ↦
        let at : b.window_start + g ≡ p = rw e at v.here in
        let inside : g ≤ b.window_len = rw e at v.shows.inside in
        elim (Bool-cases (ltb g b.window_len)) [
          | inl l ↦
              let h' = rw (at_get, e, l) at h in
              let (c, q) =
                get_elem?-some b.window g (omega (arith, ltb→lt g b.window_len l, v.shows.whole)) in
              absurd (cc)
          | inr l ↦ let past : b.window_len ≤ g = ground arith in omega arith
        ]
  ]

  pub at_get-byte_at :
      (p : ℕ) (b : Buffer) (c : ℕ) → Stands p b → at_get b ≡ some c → get_elem? bytes p ≡ some c
  unfolding cur_pos
  at_get-byte_at p b c v h =
      let e : cur_pos b ≡ p = omega (arith, v.here, v.shows.inside, v.shows.fits) in
      subst (λ (k : ℕ). get_elem? bytes k ≡ some c) e (at_get-object bytes b c v.shows h)

  pub bump-Stands :
      (p : ℕ) (b : Buffer) (c : ℕ) → Stands p b → at_get b ≡ some c → Stands (p + 1) (bump b)
  bump-Stands p b c v h =
      let below = at_get-below b c h in
      record {
        shows = record {
          bytes = v.shows.bytes;
          whole = v.shows.whole;
          inside = omega arith;
          fits = v.shows.fits;
        };
        here = omega (arith, v.here);
        ends = v.ends;
        empty = λ e. absurd (cc);
        within = omega (arith, get_elem?-lt bytes p c (at_get-byte_at p b c v h));
      }

  pub at_get-empty : (b : Buffer) → (b.window_len == 0) ≡ true → at_get b ≡ none
  unfolding at_get
  at_get-empty b h = elim (Option-cases b.get) [
    | inl e ↦ rw (at_get, e) refl
    | inr (g, e) ↦ let out : ltb g b.window_len ≡ false = ground arith in rw (at_get, e, out) refl
  ]

  -- At the end of the object.
  pub no_byte_at :
      (p : ℕ) (b : Buffer)
      → Stands p b
      → at_get b ≡ none
      → b.reached_eof ≡ true
      → get_elem? bytes p ≡ none
  no_byte_at p b v h e = get_elem?-none bytes p (omega (arith, at_get-end p b v h, v.ends e))

  -- The end of file noted once more.
  pub eof_set :
      (p : ℕ) (b : Buffer)
      → Stands p b
      → length bytes ≤ b.window_start + b.window_len
      → Stands p (record b { reached_eof = true })
  eof_set p b v h = record {
    shows = record {
      bytes = v.shows.bytes;
      whole = v.shows.whole;
      inside = v.shows.inside;
      fits = v.shows.fits;
    };
    here = v.here;
    ends = λ e. h;
    empty = v.empty;
    within = v.within;
  }

pub clear_error-Stands :
    (bytes : Text) (p : ℕ) (b : Buffer) → Stands bytes p b → Stands bytes p (clear_error b)
clear_error-Stands bytes p b v = record {
  shows = record {
    bytes = v.shows.bytes;
    whole = v.shows.whole;
    inside = v.shows.inside;
    fits = v.shows.fits;
  };
  here = v.here;
  ends = v.ends;
  empty = v.empty;
  within = v.within;
}

pub move_get-Stands :
    (bytes : Text) (p target : ℕ) (b : Buffer)
    → Stands bytes p b
    → target ≤ length bytes
    → in_window b target ≡ true
    → Stands bytes target (move_get target b)
unfolding in_window move_get
move_get-Stands bytes p target b v h q = record {
  shows = (move_get-Shows bytes b target v.shows q).0;
  here = ground arith;
  ends = v.ends;
  empty = λ e. absurd (cc);
  within = h;
}
