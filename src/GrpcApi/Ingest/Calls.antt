-- ===== src/GrpcApi/Ingest/Calls.antt =====
-- With what a service calls its ingester.
use cloudy_neigh.Prelude.{
  ℕ, ◌%◌, ◌^◌, ◌≡◌, ◌≢◌, refl, ap, Bool, true, false, Option, none, some, List, [], ◌∷◌, map, Bytes,
  bytes_eq, bytes_eq_iff, is_empty, length, if◌then◌else◌, Result, ok, err, ◌⊎◌, inl, inr,
  Bool-cases, All, arith,
}
use cloudy_neigh.Prelude.Assoc
use cloudy_neigh.Prelude.Assoc.{Assoc}
use cloudy_neigh.Namespace.Names.{validate_name}
use cloudy_neigh.Namespace.Names.Keys.{IsName}
use cloudy_neigh.Ingest.Messages.{Record}
use cloudy_neigh.GrpcApi.Status.{
  Answer, refused, replied, ◌>>=◌, Code, code_of, fork_code_of, named, valid_name,
  resolve_namespace, resolve_branch, invalid_argument_code,
}
use cloudy_neigh.GrpcApi.Tenant.{tenant_from}
use cloudy_neigh.GrpcApi.Ingest
use cloudy_neigh.GrpcApi.Ingest.{
  IngesterOps, UpsertRequest, ForkRequest, Call, checked_records, resolved, finish, upsert_all,
  run_call, with_ingester, unless_same, fork_call, fork_one,
}

Answer-step :
    {A B : Type 0} (r : Answer A) (f : A → Answer B) (b : B)
    → (r >>= f) ≡ replied b
    → (a : A) × (r ≡ replied a) × (f a ≡ replied b)
Answer-step (replied a) f b h = (a, refl, h)
Answer-step (refused c) f b h = cc

valid_name-IsName : (raw name : Bytes) → valid_name raw ≡ replied name → IsName name
unfolding valid_name
valid_name-IsName raw name h = by_check (validate_name raw) refl h
  where
    by_check :
        (r : Result (Unit {0})) → validate_name raw ≡ r → named raw r ≡ replied name → IsName name
    by_check (ok tt) e k = let same : raw ≡ name = cc in rw same at e
    by_check (err x) e k = cc

resolve_namespace-IsName : (raw name : Bytes) → resolve_namespace raw ≡ replied name → IsName name
unfolding resolve_namespace
resolve_namespace-IsName raw name h = valid_name-IsName _ name h

resolve_branch-IsName : (raw name : Bytes) → resolve_branch raw ≡ replied name → IsName name
unfolding resolve_branch
resolve_branch-IsName raw name h = valid_name-IsName _ name h

-- Every record has an identifier.
abbrev pub AllNamed : List Record → Type 0
AllNamed recs = All (λ (r : Record). is_empty r.id ≡ false) recs

checked_records-AllNamed :
    (reqs : List (Option Record)) (recs : List Record)
    → checked_records reqs ≡ replied recs
    → AllNamed recs × (reqs ≡ map some recs)
unfolding checked_records
checked_records-AllNamed [] recs h = let empty : [] ≡ recs = cc in rw (← empty) (tt, refl)
checked_records-AllNamed (none ∷ reqs) recs h = cc
checked_records-AllNamed (some rec ∷ reqs) recs h = elim (Bool-cases (is_empty rec.id)) [
  | inl bad ↦ absurd (ground arith)
  | inr fine ↦
      let (rest, e, last) = Answer-step (checked_records reqs) _ recs (rw fine at h) in
      let is_recs : rec ∷ rest ≡ recs = cc in
      let (all, same) = checked_records-AllNamed reqs rest e in
      rw (← is_recs) ((fine, all), ap (λ (l : List (Option Record)). some rec ∷ l) same)
]

resolved-Call :
    {A : Type 0} (raw_namespace raw_branch : Bytes) (checked : Answer A) (call : Call A)
    → resolved raw_namespace raw_branch checked ≡ replied call
    → IsName call.namespace × IsName call.branch × (checked ≡ replied call.argument)
resolved-Call raw_namespace raw_branch checked call h =
    let (ns, e, h1) = Answer-step (resolve_namespace raw_namespace) _ call h in
    let (b, e', h2) = Answer-step (resolve_branch raw_branch) _ call h1 in
    let (a, e'', h3) = Answer-step checked _ call h2 in
    let is_call : record { namespace = ns; branch = b; argument = a } ≡ call = cc in
    rw (← is_call)
      (resolve_namespace-IsName raw_namespace ns e, resolve_branch-IsName raw_branch b e', e'')

Answer-cases :
    {A : Type 0} (r : Answer A) → ((c : Code) × (r ≡ refused c)) ⊎ ((a : A) × (r ≡ replied a))
Answer-cases (refused c) = inl (c, refl)
Answer-cases (replied a) = inr (a, refl)

fork_call-Call :
    (req : ForkRequest) (call : Call Bytes)
    → fork_call req ≡ replied call
    → IsName call.namespace
      × IsName call.branch
      × IsName call.argument
      × (call.branch ≢ call.argument)
fork_call-Call req call h =
    let (ns, e, h1) = Answer-step (resolve_namespace req.namespace) _ call h in
    let (target, e', h2) =
      Answer-step
        (if is_empty req.target_branch
          then refused invalid_argument_code
          else valid_name req.target_branch)
        _ call h1 in
    let (source, e'', h3) = Answer-step (resolve_branch req.source_branch) _ call h2 in
    let (differ, is_call) = different ns source target (bytes_eq source target) refl h3 in
    rw (← is_call) (
      resolve_namespace-IsName req.namespace ns e,
      resolve_branch-IsName req.source_branch source e'',
      target_name target (is_empty req.target_branch) e',
      differ,
    )
  where
    target_name :
        (target : Bytes) (b : Bool)
        → (if b then refused invalid_argument_code else valid_name req.target_branch)
          ≡ replied target
        → IsName target
    target_name target true k = cc
    target_name target false k = valid_name-IsName req.target_branch target k

    different :
        (ns source target : Bytes) (b : Bool)
        → bytes_eq source target ≡ b
        → unless_same b (record { namespace = ns; branch = source; argument = target })
          ≡ replied call
        → (source ≢ target) × (record { namespace = ns; branch = source; argument = target } ≡ call)
    different ns source target true e k = cc
    different ns source target false e k =
        ((λ same. ground (arith, bytes_eq_iff source target)), cc)

module _ {S : Type 0} where
  -- The ingester was called with names that are valid and records that are those of the request and
  -- have identifiers, and the answer is what it makes of them.
  pub record Called (ing : IngesterOps S) (req : UpsertRequest) (s : S) (out : Answer ℕ × S)
      : Type 0 where
    pub namespace : Bytes
    pub branch : Bytes
    pub first : Record
    pub rest : List Record
    pub is_namespace : IsName namespace
    pub is_branch : IsName branch
    pub are_records : req.records ≡ map some (first ∷ rest)
    pub are_named : AllNamed (first ∷ rest)
    pub is_call :
        out
        ≡ finish
            (length (first ∷ rest) % 2 ^ 32)
            code_of
            (ing.upsert namespace branch (first ∷ rest) s)

  -- An answer with no call: a refusal, or a response to no records. Or the call of the ingester.
  abbrev pub Handled :
      Assoc (IngesterOps S) → Option Bytes → UpsertRequest → S → Answer ℕ × S → Type 0
  Handled ingesters tenant req s out =
      ((c : Code) × (out ≡ (refused c, s)))
      ⊎ (((req.records ≡ []) × (out ≡ (replied 0, s)))
          ⊎ ((ing : IngesterOps S) × (Assoc.lookup (tenant_from tenant) ingesters ≡ some ing)
              × Called ing req s out))

  upsert_all-Handled :
      (ing : IngesterOps S) (req : UpsertRequest) (ns b : Bytes) (recs : List Record) (s : S)
      → IsName ns
      → IsName b
      → checked_records req.records ≡ replied recs
      → ((req.records ≡ []) × (upsert_all ing ns b recs s ≡ (replied 0, s)))
        ⊎ Called ing req s (upsert_all ing ns b recs s)
  upsert_all-Handled ing req ns b [] s is_ns is_b h =
      let (_, same) = checked_records-AllNamed req.records [] h in inl (same, refl)
  upsert_all-Handled ing req ns b (rec ∷ recs) s is_ns is_b h =
      let (all, same) = checked_records-AllNamed req.records (rec ∷ recs) h in
      inr (record {
        namespace = ns;
        branch = b;
        first = rec;
        rest = recs;
        is_namespace = is_ns;
        is_branch = is_b;
        are_records = same;
        are_named = all;
        is_call = refl;
      })

  -- Whatever a request to write holds: either it is answered with no call of an ingester and no
  -- change, by a refusal or, if it has no records, by a response; or the ingester of the tenant is
  -- called, once, with a valid name of a namespace, a valid name of a branch and the records of the
  -- request, at least one and each with an identifier, and its state and result are the answer.
  pub upsert-Handled :
      (ingesters : Assoc (IngesterOps S)) (tenant : Option Bytes) (req : UpsertRequest) (s : S)
      → Handled ingesters tenant req s (Ingest.upsert ingesters tenant (some req) s)
  unfolding Ingest.upsert
  upsert-Handled ingesters tenant req s =
      by_tenant (Assoc.lookup (tenant_from tenant) ingesters) refl
    where
      by_tenant :
          (o : Option (IngesterOps S))
          → Assoc.lookup (tenant_from tenant) ingesters ≡ o
          → Handled ingesters tenant req s (
              with_ingester
                (λ ing.
                  run_call
                    (upsert_all ing)
                    (resolved req.namespace req.branch (checked_records req.records)))
                o
                s)
      by_tenant none e = inl (_, refl)
      by_tenant (some ing) e =
          elim (Answer-cases (resolved req.namespace req.branch (checked_records req.records))) [
            | inl (c, h) ↦ rw h (inl (c, refl))
            | inr (call, h) ↦
                let (is_ns, is_b, checked) =
                  resolved-Call req.namespace req.branch (checked_records req.records) call h in
                rw h
                  (elim (upsert_all-Handled ing req call.namespace call.branch call.argument s is_ns
                    is_b checked) [
                      | inl nothing ↦ inr (inl nothing)
                      | inr called ↦ inr (inr (ing, e, called))
                    ])
          ]

  -- The same for a fork: the names are valid, and the target is not the source.
  pub record ForkCalled (ing : IngesterOps S) (s : S) (out : Answer (Unit {0}) × S) : Type 0 where
    pub namespace : Bytes
    pub source : Bytes
    pub target : Bytes
    pub is_namespace : IsName namespace
    pub is_source : IsName source
    pub is_target : IsName target
    pub differ : source ≢ target
    pub is_call : out ≡ finish tt fork_code_of (ing.fork namespace source target s)

  abbrev pub ForkHandled : Assoc (IngesterOps S) → Option Bytes → S → Answer (Unit {0}) × S → Type 0
  ForkHandled ingesters tenant s out =
      ((c : Code) × (out ≡ (refused c, s)))
      ⊎ ((ing : IngesterOps S) × (Assoc.lookup (tenant_from tenant) ingesters ≡ some ing)
          × ForkCalled ing s out)

  -- Whatever a request to fork holds: it is refused with no call of an ingester and no change, or the
  -- ingester of the tenant is called, once, with valid names of a namespace and of two different
  -- branches, and its state and result are the answer.
  pub fork-ForkHandled :
      (ingesters : Assoc (IngesterOps S)) (tenant : Option Bytes) (req : ForkRequest) (s : S)
      → ForkHandled ingesters tenant s (Ingest.fork ingesters tenant (some req) s)
  unfolding Ingest.fork
  fork-ForkHandled ingesters tenant req s =
      by_tenant (Assoc.lookup (tenant_from tenant) ingesters) refl
    where
      by_tenant :
          (o : Option (IngesterOps S))
          → Assoc.lookup (tenant_from tenant) ingesters ≡ o
          → ForkHandled ingesters tenant s
              (with_ingester (λ ing. run_call (fork_one ing) (fork_call req)) o s)
      by_tenant none e = inl (_, refl)
      by_tenant (some ing) e = elim (Answer-cases (fork_call req)) [
        | inl (c, h) ↦ rw h (inl (c, refl))
        | inr (call, h) ↦
            let (is_ns, is_source, is_target, differ) = fork_call-Call req call h in
            rw h (
              inr (
                ing,
                e,
                record {
                  namespace = call.namespace;
                  source = call.branch;
                  target = call.argument;
                  is_namespace = is_ns;
                  is_source = is_source;
                  is_target = is_target;
                  differ = differ;
                  is_call = refl;
                },
              ))
      ]
