-- ===== src/Updater/Bundle.antt =====
-- src/self-update.ts: a bundle is fetched with its signature and its checksum, and verified. What is
-- not this file's own is a record: the network, the digest, Ed25519, texts, and the two patterns that
-- find the build time in a bundle.
pub mod Trusted
use Prim.Native.String.{String, ◌++◌}
use Prim.Native.Char.{code}
use the_dudes_daemon.Base.{
  ℕ, zero, suc, ◌*◌, ◌^◌, Bool, true, false, not, ◌&&◌, ◌||◌, Option, none, some, List, [], ◌∷◌,
  leb, ltb, if◌then◌else◌, ◌==◌, comparable_nat, comparable_string, any, ◌>>=◌,
}
use the_dudes_daemon.SuitePark.Command.{words, head_or_empty}

-- `fetch` answers with the body of a response that is ok; `decode` is
-- `Buffer.from(text.trim(), "base64")`
-- and `ed_verify` Ed25519's check, both with `none` where they throw; `named_build_ts` is the number
-- that the pattern for DAEMON_BUILD_TS finds. `write` and `rename` tell whether they do not throw.
pub record Platform (B S : Type 0) : Type 0 where
  pub fetch : String → Option B
  pub size : B → ℕ
  pub text : B → String
  pub lower : String → String
  pub decode : String → Option S
  pub sig_size : S → ℕ
  pub ed_verify : B → String → S → Option Bool
  pub sha256 : B → String
  pub named_build_ts : B → Option ℕ
  pub write : String → Bool
  pub rename : String → Bool

abbrev pub max_bundle_bytes : ℕ
max_bundle_bytes = 32 * 1024 * 1024

abbrev pub max_text_bytes : ℕ
max_text_bytes = 4096

-- `if (!test) throw`
abbrev pub guard : Bool → Option (Unit {0})
guard true = some tt
guard false = none

abbrev is_true : Option Bool → Bool
is_true none = false
is_true (some b) = b

pub install : String → String → String
install base name = base ++ "/install/" ++ name

module _ {B S : Type 0} (p : Platform B S) where
  pub fetch_bytes : String → ℕ → Option B
  fetch_bytes url max_bytes = do
    buf ← p.fetch url
    _ ← guard (not (p.size buf == 0 || ltb max_bytes (p.size buf)))
    some buf

  signed_by : B → Option S → List String → Bool
  signed_by bundle none pubs = false
  signed_by bundle (some sig) pubs =
      not (p.sig_size sig == 0) && any (λ key. is_true (p.ed_verify bundle key sig)) pubs

  pub signature_accepted : B → String → List String → Bool
  unfolding signed_by
  signature_accepted bundle sig_b64 pubs = signed_by bundle (p.decode sig_b64) pubs

  pub verify_bundle : B → String → String → List String → Option (Unit {0})
  unfolding signature_accepted
  verify_bundle bundle sig_b64 expected_sha256 pubs = do
    _ ← guard (signature_accepted bundle sig_b64 pubs)
    guard (p.sha256 bundle == p.lower expected_sha256)

  -- `Number(m[1])`, unless it is 0.
  pub extract_build_ts : B → Option ℕ
  extract_build_ts bundle = do n ← p.named_build_ts bundle; _ ← guard (ltb 0 n); some n

  is_newer : Option ℕ → ℕ → Bool
  is_newer none running = false
  is_newer (some incoming) running = ltb running incoming

  pub first_word : B → String
  first_word body = head_or_empty (words (p.text body))

  -- The body of the loop over both bundles, up to the write.
  pub fetch_verified : String → List String → ℕ → String → Option B
  unfolding install fetch_bytes verify_bundle extract_build_ts is_newer first_word
  fetch_verified base pubs running name = do
    bundle ← fetch_bytes (install base name) max_bundle_bytes
    sig ← fetch_bytes (install base (name ++ ".sig")) max_text_bytes
    sha_pub ← fetch_bytes (install base (name ++ ".sha256")) max_text_bytes
    _ ← verify_bundle bundle (p.text sig) (first_word sha_pub) pubs
    _ ← guard (not (name == "daemon.cjs") || is_newer (extract_build_ts bundle) running)
    some bundle

abbrev is_hex : ℕ → Bool
is_hex c = (leb 48 c && leb c 57) || (leb 97 c && leb c 102)

-- `/^[a-f0-9]{n}$/`
pub is_hex_of : ℕ → String → Bool
is_hex_of zero String.[] = true
is_hex_of zero (String.◌∷◌ c s) = false
is_hex_of (suc n) String.[] = false
is_hex_of (suc n) (String.◌∷◌ c s) = is_hex (code c) && is_hex_of n s
