-- ===== src/Updater/Bundle/Trusted.antt =====
-- A bundle that passes was signed by a trusted key, is the announced one and is newer.
use Prim.Native.String.{String, ◌++◌}
use the_dudes_daemon.Base.{
  ℕ, ◌≤◌, ◌<◌, ◌≡◌, ◌⊎◌, inl, inr, refl, Bool, true, false, not, ◌||◌, Option, none, some, List, [],
  ◌∷◌, arith, ltb, ◌==◌, comparable_string, any, contains, bind-some, ◌>>=◌, Bool-cases,
  comparable_nat, ap, subst,
}
use the_dudes_daemon.Updater.Bundle.{
  Platform, max_bundle_bytes, max_text_bytes, guard, is_true, fetch_bytes, signed_by,
  signature_accepted, verify_bundle, extract_build_ts, is_newer, first_word, install,
  fetch_verified,
}

bind-guard {ℓ} :
    {A : Type ℓ} (b : Bool) (k : Unit {0} → Option A) {a : A}
    → (guard b >>= k) ≡ some a
    → (b ≡ true) × (k tt ≡ some a)
bind-guard true k h = (refl, h)
bind-guard false k h = cc

guard-true : (b : Bool) {u : Unit {0}} → guard b ≡ some u → b ≡ true
guard-true true h = refl
guard-true false h = cc

is_true-some : (o : Option Bool) → is_true o ≡ true → o ≡ some true
is_true-some none h = cc
is_true-some (some b) h = ap (λ x. some x) h

module _ {B S : Type 0} (p : Platform B S) where
  abbrev pub Signed : List String → B → Type 0
  Signed pubs bundle =
      (sig : S) × (key : String) × (contains key pubs ≡ true)
      × (p.ed_verify bundle key sig ≡ some true)

  -- One of the trusted keys signed the bundle, its digest is the one that the server announces for the name,
  -- it is neither empty nor too large, and if it is the daemon's it was built after the one that runs.
  pub record Trusted (base : String) (pubs : List String) (running : ℕ) (name : String) (bundle : B)
      : Type 0 where
    pub signed : Signed pubs bundle
    pub announced :
        (body : B) × (p.fetch (install base (name ++ ".sha256")) ≡ some body)
        × (p.sha256 bundle ≡ p.lower (first_word p body))
    pub sized : (0 < p.size bundle) × (p.size bundle ≤ max_bundle_bytes)
    pub newer :
        ((name == "daemon.cjs") ≡ false)
        ⊎ ((ts : ℕ) × (p.named_build_ts bundle ≡ some ts) × (running < ts))

  fetch_bytes-some :
      (url : String) (most : ℕ) {b : B}
      → fetch_bytes p url most ≡ some b
      → (p.fetch url ≡ some b) × (0 < p.size b) × (p.size b ≤ most)
  unfolding fetch_bytes
  fetch_bytes-some url most {b} h =
      let (buf, e, k) = bind-some (p.fetch url) _ b h in
      let (t, l) =
        bind-guard (not (p.size buf == 0 || ltb most (p.size buf))) (λ u. some buf) {a = b} k in
      let same : buf ≡ b = cc in
      subst (λ x. (p.fetch url ≡ some x) × (0 < p.size x) × (p.size x ≤ most)) same
        (e, ground arith, ground arith)

  any-Signed :
      (bundle : B) (sig : S) (pubs : List String)
      → any (λ key. is_true (p.ed_verify bundle key sig)) pubs ≡ true
      → Signed pubs bundle
  any-Signed bundle sig [] h = cc
  any-Signed bundle sig (key ∷ pubs) h = elim (Bool-cases (is_true (p.ed_verify bundle key sig))) [
    | inl e ↦ (
      sig,
      key,
      ground (arith, comparable_string.agree_iff key key),
      is_true-some (p.ed_verify bundle key sig) e,
    )
    | inr e ↦
        let (s, k, i, v) = any-Signed bundle sig pubs (ground arith) in (s, k, ground arith, v)
  ]

  signature_accepted-Signed :
      (bundle : B) (text : String) (pubs : List String)
      → signature_accepted p bundle text pubs ≡ true
      → Signed pubs bundle
  unfolding signature_accepted signed_by
  signature_accepted-Signed bundle text pubs h = decoded (p.decode text) h
    where
      decoded : (o : Option S) → signed_by p bundle o pubs ≡ true → Signed pubs bundle
      decoded none k = cc
      decoded (some sig) k = any-Signed bundle sig pubs (ground arith)

  is_newer-some :
      (bundle : B) (running : ℕ)
      → is_newer p (extract_build_ts p bundle) running ≡ true
      → (ts : ℕ) × (p.named_build_ts bundle ≡ some ts) × (running < ts)
  unfolding extract_build_ts is_newer
  is_newer-some bundle running h = named (p.named_build_ts bundle) h
    where
      named :
          (o : Option ℕ)
          → is_newer p (o >>= λ n. guard (ltb 0 n) >>= λ u. some n) running ≡ true
          → (ts : ℕ) × (o ≡ some ts) × (running < ts)
      named none k = cc
      named (some n) k = (n, refl, ground arith)

  trusted :
      (base : String) (pubs : List String) (running : ℕ) (name : String) (b : B) (sig : String)
      (body : B) {u : Unit {0}}
      → fetch_bytes p (install base name) max_bundle_bytes ≡ some b
      → fetch_bytes p (install base (name ++ ".sha256")) max_text_bytes ≡ some body
      → verify_bundle p b sig (first_word p body) pubs ≡ some u
      → (not (name == "daemon.cjs") || is_newer p (extract_build_ts p b) running) ≡ true
      → Trusted base pubs running name b
  unfolding verify_bundle
  trusted base pubs running name b sig body e g v n =
      let (signed, w) =
        bind-guard (signature_accepted p b sig pubs)
          (λ x. guard (p.sha256 b == p.lower (first_word p body))) v in
      let same = guard-true (p.sha256 b == p.lower (first_word p body)) w in
      let sizes = fetch_bytes-some (install base name) max_bundle_bytes e in
      record {
        signed = signature_accepted-Signed b sig pubs signed;
        announced = (
          body,
          (fetch_bytes-some (install base (name ++ ".sha256")) max_text_bytes g).0,
          (comparable_string.agree_iff _ _).0 same,
        );
        sized = (sizes.1, sizes.2);
        newer = elim (Bool-cases (name == "daemon.cjs")) [
          | inl d ↦ inr (is_newer-some b running (ground arith))
          | inr d ↦ inl d
        ];
      }

  pub fetch_verified-Trusted :
      (base : String) (pubs : List String) (running : ℕ) (name : String) {bundle : B}
      → fetch_verified p base pubs running name ≡ some bundle
      → Trusted base pubs running name bundle
  unfolding fetch_verified
  fetch_verified-Trusted base pubs running name {bundle} h =
      let (b, e, h1) = bind-some (fetch_bytes p (install base name) max_bundle_bytes) _ bundle h in
      let (sig, f, h2) =
        bind-some (fetch_bytes p (install base (name ++ ".sig")) max_text_bytes) _ bundle h1 in
      let (body, g, h3) =
        bind-some (fetch_bytes p (install base (name ++ ".sha256")) max_text_bytes) _ bundle h2 in
      let (u, v, h4) =
        bind-some (verify_bundle p b (p.text sig) (first_word p body) pubs) _ bundle h3 in
      let (n, l) =
        bind-guard (not (name == "daemon.cjs") || is_newer p (extract_build_ts p b) running)
          (λ w. some b) {a = bundle} h4 in
      let same : b ≡ bundle = cc in
      subst (λ x. Trusted base pubs running name x) same
        (trusted base pubs running name b (p.text sig) body e g v n)
