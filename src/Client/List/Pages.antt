-- ===== src/Client/List/Pages.antt =====
-- The pages of a listing as a relation, and that the loop of list follows it.
use mathlib.Core.List.{append_assoc}
use nanos3reader.Prelude.{
  ℕ, zero, suc, ◌≤◌, ◌≡◌, refl, sym, ap, ◌∙◌, ◌≢◌, inl, inr, true, false, not, Option, none, some,
  List, [], ◌++◌, arith, ◌==◌, if◌then◌else◌, Bool-cases,
}
use nanos3reader.Text.{Text, codes, text_eq}
use nanos3reader.Result.{Result, ok, err, ◌>>=◌, map_err}
use nanos3reader.World.{World}
use nanos3reader.Http.Request.{Reply}
use nanos3reader.Xml.Page.{Page, ObjectInfo, parse_list_page}
use nanos3reader.Client.Calls.{Client, Done, then_with, transferred, exchange}
use nanos3reader.Client.List.{list_call, page_result, list_page, list_loop}
use nanos3reader.Xml.Page.Append.{map_ok, map_some, behind, parse_list_page-behind}

abbrev pub done : {A : Type 0} {S : Type 0} → A → Client → S → Done A S
done a c s = record { result = a; client = c; state = s }

module _ (w : World) (uri bucket prefix delimiter : Text) where
  open w use {State}

  -- The request for one page, its reply read on its own.
  abbrev pub page_at : Client → Text → State → Done (Result Page) State
  page_at c token s = list_page w c uri bucket prefix delimiter token [] [] s

  -- A listing of so many pages, from a token: each page is truncated but the last, each token is
  -- the one that the page before names and differs from the token before it, and the objects and
  -- prefixes are those of the pages, in order.
  pub data Listing
      : ℕ → Client → Text → State → List ObjectInfo → List Text → Client → State → Type 0 where
    last_page :
        {c : Client} {token : Text} {s : State}
        → (page : Page) (c' : Client) (s' : State) → page_at c token s ≡ done (ok page) c' s'
        → page.truncated ≡ false
        → Listing 1 c token s page.objects page.prefixes c' s'
    more_pages :
        {n : ℕ} {c : Client} {token : Text} {s : State}
        → (page : Page) (c' : Client) (s' : State)
        → {objects : List ObjectInfo} {prefixes : List Text} {c'' : Client} {s'' : State}
        → page_at c token s ≡ done (ok page) c' s'
        → page.truncated ≡ true
        → text_eq page.next_token token ≡ false
        → Listing n c' page.next_token s' objects prefixes c'' s''
        → Listing (suc n) c token s (page.objects ++ objects) (page.prefixes ++ prefixes) c'' s''

  page_result-behind :
      (found : List ObjectInfo) (prefixes : List Text) (r : Reply)
      → page_result uri found prefixes r ≡ map_ok (behind found prefixes) (page_result uri [] [] r)
  unfolding page_result
  page_result-behind found prefixes r = elim (Bool-cases (r.code == 200)) [
    | inr q ↦ rw (q, page_result) refl
    | inl q ↦
        rw (q, page_result, parse_list_page-behind r.text found prefixes)
          (of_page (parse_list_page r.text [] []))
  ]
    where
      of_page :
          (p : Option (Result Page))
          → (elim (map_some (map_ok (behind found prefixes)) p) [
            | none ↦ err uri
            | some q ↦ map_err (λ e. uri ++ (codes ": " ++ e)) q
          ])
            ≡ map_ok
                (behind found prefixes)
                (elim p [ none ↦ err uri | some q ↦ map_err (λ e. uri ++ (codes ": " ++ e)) q ])
      of_page none = refl
      of_page (some (ok page)) = refl
      of_page (some (err e)) = refl

  list_page-behind :
      (c : Client) (token : Text) (found : List ObjectInfo) (prefixes : List Text) (s : State)
      → list_page w c uri bucket prefix delimiter token found prefixes s
        ≡ then_with (page_at c token s) (map_ok (behind found prefixes))
  unfolding list_page
  list_page-behind c token found prefixes s =
      let d = exchange w c (ok (list_call bucket prefix delimiter token)) s in
      ap (λ (r : Result Page). done r d.client d.state) (of_reply (d.result >>= transferred w uri))
    where
      of_reply :
          (r : Result Reply)
          → (r >>= page_result uri found prefixes)
            ≡ map_ok (behind found prefixes) (r >>= page_result uri [] [])
      of_reply (ok r) = page_result-behind found prefixes r
      of_reply (err e) = refl

  -- What a round of the loop makes of its page.
  abbrev after_page :
      ℕ
      → Text
      → Done (Result Page) State
      → Option (Done (Result (List ObjectInfo × List Text)) State)
  after_page fuel token d = elim d.result [
    | err e ↦ some (done (err e) d.client d.state)
    | ok page ↦
        if not page.truncated
        then some (done (ok (page.objects, page.prefixes)) d.client d.state)
        else if text_eq page.next_token token
        then some (
            done (err (uri ++ codes ": listing did not advance (repeated continuation token)"))
              d.client d.state)
        else list_loop w fuel d.client uri bucket prefix delimiter page.next_token page.objects
            page.prefixes d.state
  ]

  list_loop-suc :
      (fuel : ℕ) (c : Client) (token : Text) (found : List ObjectInfo) (common : List Text)
      (s : State)
      → list_loop w (suc fuel) c uri bucket prefix delimiter token found common s
        ≡ after_page fuel token (list_page w c uri bucket prefix delimiter token found common s)
  unfolding list_loop
  list_loop-suc fuel c token found common s = refl

  -- The same for a page that is read on its own.
  list_loop-step :
      (fuel : ℕ) (c : Client) (token : Text) (found : List ObjectInfo) (common : List Text)
      (s : State) (r : Result Page) (c' : Client) (s' : State)
      → page_at c token s ≡ done r c' s'
      → list_loop w (suc fuel) c uri bucket prefix delimiter token found common s
        ≡ after_page fuel token (done (map_ok (behind found common) r) c' s')
  list_loop-step fuel c token found common s r c' s' e =
      list_loop-suc fuel c token found common s
      ∙ ap (after_page fuel token) (
          list_page-behind c token found common s
          ∙ ap (λ (d : Done (Result Page) State). then_with d (map_ok (behind found common))) e)

  -- A listing of `n` pages is what the loop gives, with fuel for `n` pages or more.
  pub list_loop-of_Listing :
      {n : ℕ} {c : Client} {token : Text} {s : State} {objects : List ObjectInfo}
      → {prefixes : List Text} {c' : Client} {s' : State}
      → Listing n c token s objects prefixes c' s'
      → (fuel : ℕ) (found : List ObjectInfo) (common : List Text) → n ≤ fuel
      → list_loop w fuel c uri bucket prefix delimiter token found common s
        ≡ some (done (ok (found ++ objects, common ++ prefixes)) c' s')
  list_loop-of_Listing (last_page {c = c} {token = token} {s = s} page c' s' e h) zero found common
        l =
      absurd (omega arith)
  list_loop-of_Listing (last_page {c = c} {token = token} {s = s} page c' s' e h) (suc fuel) found
        common l =
      list_loop-step fuel c token found common s (ok page) c' s' e ∙ rw h refl
  list_loop-of_Listing
        (more_pages {n = n} {c = c} {token = token} {s = s} page c' s' {objects = objects}
          {prefixes = prefixes} e h k rest)
        zero found common l =
      absurd (omega arith)
  list_loop-of_Listing
        (more_pages {n = n} {c = c} {token = token} {s = s} page c' s' {objects = objects}
          {prefixes = prefixes} {c'' = c''} {s'' = s''} e h k rest)
        (suc fuel) found common l =
      list_loop-step fuel c token found common s (ok page) c' s' e
      ∙ rw (h, k)
          (list_loop-of_Listing rest fuel (found ++ page.objects) (common ++ page.prefixes)
              (omega arith)
            ∙ λ i. some (
                done
                  (ok (
                    append_assoc found page.objects objects i,
                    append_assoc common page.prefixes prefixes i,
                  ))
                  c'' s''))

  found_all_injective :
      (os os' : List ObjectInfo) (ps ps' : List Text) (c c' : Client) (s s' : State)
      → some (done {A = Result (List ObjectInfo × List Text)} (ok (os, ps)) c s)
        ≡ some (done (ok (os', ps')) c' s')
      → (os ≡ os') × (ps ≡ ps') × (c ≡ c') × (s ≡ s')
  found_all_injective os os' ps ps' c c' s s' h =
      let x : Done (Result (List ObjectInfo × List Text)) State = done (ok (os, ps)) c s in
      let y : Done (Result (List ObjectInfo × List Text)) State = done (ok (os', ps')) c' s' in
      let same : x ≡ y = cc in
      let p : List ObjectInfo × List Text = (os, ps) in
      let p' : List ObjectInfo × List Text = (os', ps') in
      let oks : ok p ≡ ok p' =
        ap (λ (d : Done (Result (List ObjectInfo × List Text)) State). d.result) same in
      let both : p ≡ p' = cc in
      (
        ap (λ (x : List ObjectInfo × List Text). x.0) both,
        ap (λ (x : List ObjectInfo × List Text). x.1) both,
        ap (λ (d : Done (Result (List ObjectInfo × List Text)) State). d.client) same,
        ap (λ (d : Done (Result (List ObjectInfo × List Text)) State). d.state) same,
      )

  -- A listing in so many rounds that adds these objects and prefixes.
  abbrev Found :
      ℕ
      → Client
      → Text
      → List ObjectInfo
      → List Text
      → State
      → List ObjectInfo
      → List Text
      → Client
      → State
      → Type 0
  Found fuel c token found common s objects prefixes c' s' =
      (n : ℕ) × (n ≤ fuel)
      × (os : List ObjectInfo) × (ps : List Text) × Listing n c token s os ps c' s'
      × (found ++ os ≡ objects)
      × (common ++ ps ≡ prefixes)

  Found-after_page :
      (fuel : ℕ) (c : Client) (token : Text) (found : List ObjectInfo) (common : List Text)
      (s : State) (objects : List ObjectInfo) (prefixes : List Text) (c' : Client) (s' : State)
      → ((c1 : Client) (token1 : Text) (found1 : List ObjectInfo) (common1 : List Text) (s1 : State)
          → list_loop w fuel c1 uri bucket prefix delimiter token1 found1 common1 s1
            ≡ some (done (ok (objects, prefixes)) c' s')
          → Found fuel c1 token1 found1 common1 s1 objects prefixes c' s')
      → (r : Result Page) (c1 : Client) (s1 : State) → page_at c token s ≡ done r c1 s1
      → after_page fuel token (done (map_ok (behind found common) r) c1 s1)
        ≡ some (done (ok (objects, prefixes)) c' s')
      → Found (suc fuel) c token found common s objects prefixes c' s'
  Found-after_page fuel c token found common s objects prefixes c' s' later (err f) c1 s1 e h =
      absurd (cc)
  Found-after_page fuel c token found common s objects prefixes c' s' later (ok page) c1 s1 e h =
      elim (Bool-cases page.truncated) [
        | inr t ↦
            let (eo, ep, ec, es) =
              found_all_injective (found ++ page.objects) objects (common ++ page.prefixes) prefixes
                c1 c' s1 s' (rw t at h) in
            (
              1,
              omega arith,
              page.objects,
              page.prefixes,
              last_page page c' s' (e ∙ λ i. done (ok page) (ec i) (es i)) t,
              eo,
              ep,
            )
        | inl t ↦ elim (Bool-cases (text_eq page.next_token token)) [
          | inl q ↦ let bad = rw (t, q) at h in absurd (cc)
          | inr q ↦
              let (n, few, os, ps, rest, eo, ep) =
                later c1 page.next_token (found ++ page.objects) (common ++ page.prefixes) s1
                  (rw (t, q) at h) in
              (
                suc n,
                omega arith,
                page.objects ++ os,
                page.prefixes ++ ps,
                more_pages page c1 s1 e t q rest,
                sym (append_assoc found page.objects os) ∙ eo,
                sym (append_assoc common page.prefixes ps) ∙ ep,
              )
        ]
      ]

  no_fuel :
      (c : Client) (token : Text) (found : List ObjectInfo) (common : List Text) (s : State)
      (d : Done (Result (List ObjectInfo × List Text)) State)
      → list_loop w zero c uri bucket prefix delimiter token found common s ≢ some d
  unfolding list_loop
  no_fuel c token found common s d h = cc

  -- What the loop gives, where it succeeds, is a listing of no more pages than there is fuel.
  pub list_loop-Listing :
      (fuel : ℕ) (objects : List ObjectInfo) (prefixes : List Text) (c' : Client) (s' : State)
      (c : Client) (token : Text) (found : List ObjectInfo) (common : List Text) (s : State)
      → list_loop w fuel c uri bucket prefix delimiter token found common s
        ≡ some (done (ok (objects, prefixes)) c' s')
      → Found fuel c token found common s objects prefixes c' s'
  list_loop-Listing zero objects prefixes c' s' c token found common s h =
      absurd (no_fuel c token found common s _ h)
  list_loop-Listing (suc fuel) objects prefixes c' s' c token found common s h =
      let r = (page_at c token s).result in
      let c1 = (page_at c token s).client in
      let s1 = (page_at c token s).state in
      Found-after_page fuel c token found common s objects prefixes c' s'
        (list_loop-Listing fuel objects prefixes c' s') r c1 s1 refl
        (sym (list_loop-step fuel c token found common s r c1 s1 refl) ∙ h)
