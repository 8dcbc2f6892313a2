-- ===== src/ToolGate/Requests.antt =====
-- What a request of a turn that is not the owner's may ask for.
use Prim.Native.String.{String}
use the_dudes_daemon.Base.{
  ℕ, ◌≡◌, ◌≢◌, ◌↔◌, ◌⊎◌, inl, inr, refl, ap, sym, subst, ◌∙◌, Bool, true, false, not, ◌&&◌, Option,
  none, some, List, [], ◌∷◌, ◌++◌, arith, All, comparable_nat, comparable_string, ◌==◌, Bool-cases,
}
use the_dudes_daemon.ToolGate.{
  codes, slash, all_words, is_read_only, strip, after_slash, after_segment, operation, match_path,
  ◌>>=◌, is_read_only_match, non_owner_bridge_request_allowed,
}

-- The path of an operation of the bridge, for the agent of the name.
pub record IsOperation (path : List ℕ) : Type 0 where
  pub agent : List ℕ
  pub op : List ℕ
  pub place : path ≡ codes "/api/bridge/" ++ (agent ++ slash ∷ op)
  pub named : agent ≢ []
  pub segment : All (λ c. c ≢ slash) agent
  pub words : all_words op ≡ true
  pub some_op : op ≢ []
  pub read_only : is_read_only op ≡ true

strip-append : (text path : List ℕ) → strip text (text ++ path) ≡ some path
unfolding strip
strip-append [] path = refl
strip-append (c ∷ text) path = ground (arith, strip-append text path, comparable_nat.agree_iff c c)

strip-some : (text path rest : List ℕ) → strip text path ≡ some rest → path ≡ text ++ rest
unfolding strip
strip-some [] path rest h = cc
strip-some (c ∷ text) [] rest h = cc
strip-some (c ∷ text) (d ∷ path) rest h =
    ground (arith, strip-some text path rest, comparable_nat.agree_iff c d)

after_slash-append :
    (agent op : List ℕ) → All (λ c. c ≢ slash) agent → after_slash (agent ++ slash ∷ op) ≡ some op
unfolding after_slash
after_slash-append [] op a = refl
after_slash-append (c ∷ agent) op a = ground (arith, after_slash-append agent op a.1)

after_slash-some :
    (path op : List ℕ)
    → after_slash path ≡ some op
    → (agent : List ℕ) × (path ≡ agent ++ slash ∷ op) × All (λ c. c ≢ slash) agent
unfolding after_slash
after_slash-some [] op h = cc
after_slash-some (c ∷ path) op h = elim (Bool-cases (c == slash)) [
  | inl e ↦
      let same : path ≡ op = ground (arith, h, e) in
      let here : c ≡ slash = ground (arith, e) in ([], cc (same, here), tt)
  | inr e ↦
      let later : after_slash path ≡ some op = ground (arith, h, e) in
      let (agent, place, none_in) = after_slash-some path op later in
      (c ∷ agent, ap (λ l. c ∷ l) place, (ground (arith, e), none_in))
]

after_segment-append :
    (agent op : List ℕ)
    → agent ≢ []
    → All (λ c. c ≢ slash) agent
    → after_segment (agent ++ slash ∷ op) ≡ some op
unfolding after_segment
after_segment-append [] op n a = ground (arith, n refl)
after_segment-append (c ∷ agent) op n a = ground (arith, after_slash-append agent op a.1)

after_segment-some :
    (path op : List ℕ)
    → after_segment path ≡ some op
    → (agent : List ℕ) × (path ≡ agent ++ slash ∷ op) × (agent ≢ []) × All (λ c. c ≢ slash) agent
unfolding after_segment
after_segment-some [] op h = cc
after_segment-some (c ∷ path) op h =
    let other : c ≢ slash = ground arith in
    let later : after_slash path ≡ some op = ground (arith, h) in
    let (agent, place, none_in) = after_slash-some path op later in
    (c ∷ agent, ap (λ l. c ∷ l) place, λ e. cc, (other, none_in))

operation-some :
    (path op : List ℕ) → operation path ≡ some op → (path ≡ op) × (all_words op ≡ true) × (op ≢ [])
unfolding operation
operation-some [] op h = cc
operation-some (c ∷ path) op h = elim (Bool-cases (all_words (c ∷ path))) [
  | inl e ↦
      let same : c ∷ path ≡ op = ground (arith, h, e) in
      (same, ap all_words (sym same) ∙ e, λ n. cc (same, n))
  | inr e ↦ ground (arith, h, e)
]

operation-words : (op : List ℕ) → all_words op ≡ true → op ≢ [] → operation op ≡ some op
unfolding operation
operation-words [] w n = ground (arith, n refl)
operation-words (c ∷ op) w n = rw w refl

-- A chain has a result when each of its steps has one.
bind-some :
    {A B : Type 0} (m : Option A) (k : A → Option B) (b : B)
    → (m >>= k) ≡ some b
    → (a : A) × (m ≡ some a) × (k a ≡ some b)
bind-some none k b h = cc
bind-some (some a) k b h = (a, refl, h)

match_path-IsOperation : (path : List ℕ) (o : IsOperation path) → match_path path ≡ some o.op
unfolding match_path
match_path-IsOperation path o =
    let rest = o.agent ++ slash ∷ o.op in
    subst (λ p. match_path p ≡ some o.op) (sym o.place)
      (ap (λ m. m >>= λ rest. after_segment rest >>= operation)
          (strip-append (codes "/api/bridge/") rest)
        ∙ ap (λ m. m >>= operation) (after_segment-append o.agent o.op o.named o.segment)
        ∙ operation-words o.op o.words o.some_op)

match_path-some :
    (path op : List ℕ) → match_path path ≡ some op → is_read_only op ≡ true → IsOperation path
unfolding match_path
match_path-some path op h r =
    let prefix = codes "/api/bridge/" in
    let (rest, e, k) =
      bind-some (strip prefix path) (λ rest. after_segment rest >>= operation) op h in
    let (last, f, l) = bind-some (after_segment rest) operation op k in
    let (agent, place, named, segment) = after_segment-some rest last f in
    let (same, words, some_op) = operation-some last op l in
    record {
      agent = agent;
      op = op;
      place =
          strip-some prefix path rest e
          ∙ ap (λ l. prefix ++ l) (place ∙ ap (λ l. agent ++ slash ∷ l) same);
      named = named;
      segment = segment;
      words = words;
      some_op = some_op;
      read_only = r;
    }

read_only-some :
    (o : Option (List ℕ))
    → is_read_only_match o ≡ true
    → (op : List ℕ) × (o ≡ some op) × (is_read_only op ≡ true)
read_only-some none h = cc
read_only-some (some op) h = (op, refl, h)

-- The test that ends the request at once.
abbrev other_method : String → Bool
other_method method = not (method == "POST") && not (method == "GET")

other_method_iff :
    (method : String) → (other_method method ≡ false) ↔ ((method ≡ "POST") ⊎ (method ≡ "GET"))
other_method_iff method =
    ground
      (arith, comparable_string.agree_iff method "POST", comparable_string.agree_iff method "GET")

allowed-matched :
    (method : String) (path : List ℕ)
    → other_method method ≡ false
    → non_owner_bridge_request_allowed method path ≡ is_read_only_match (match_path path)
unfolding non_owner_bridge_request_allowed
allowed-matched method path h = rw h refl

allowed-method :
    (method : String) (path : List ℕ)
    → non_owner_bridge_request_allowed method path ≡ true
    → other_method method ≡ false
unfolding non_owner_bridge_request_allowed
allowed-method method path h = elim (Bool-cases (other_method method)) [
  | inl e ↦
      let shut : non_owner_bridge_request_allowed method path ≡ false = rw e refl in cc (h, shut)
  | inr e ↦ e
]

-- In the turn of somebody who is not the owner the relay forwards exactly the POST and GET requests
-- for /api/bridge/<agent>/<operation> with an operation of the list: no longer path, no other
-- segment and no other method gets through.
pub non_owner_bridge_request_allowed_iff :
    (method : String) (path : List ℕ)
    → (non_owner_bridge_request_allowed method path ≡ true)
      ↔ (((method ≡ "POST") ⊎ (method ≡ "GET")) × IsOperation path)
non_owner_bridge_request_allowed_iff method path = (
  λ h.
      let m = allowed-method method path h in
      let (op, e, r) = read_only-some (match_path path) (sym (allowed-matched method path m) ∙ h) in
      ((other_method_iff method).0 m, match_path-some path op e r),
  λ (m, o).
      allowed-matched method path ((other_method_iff method).1 m)
      ∙ ap is_read_only_match (match_path-IsOperation path o)
      ∙ o.read_only,
)
