-- ===== src/Registry/Ownership.antt =====
-- Which actor src/server/session-registry.ts finds for a process.
use pipane.Base.{
  ◌⊎◌, ◌⊎◌, ℕ, ◌≡◌, ◌<◌, refl, true, false, Option, none, some, List, [], ◌∷◌, ◌==◌, if◌then◌else◌,
  same, is_some, arith, Bool-cases, Option-cases, inl, inr, sym, subst, ◌∙◌,
}
use pipane.Base.Dict.{get, put, get-put, get-remove}
use pipane.Session.Actor.{Document, Actor, new_actor}
use pipane.Session.Mailbox.{Command}
use pipane.Registry.State.{
  Object, Registry, leased, lease_of, get_or_create, get_pending, promote_pending, publish_attached,
  discard_pending, RegistryCall, gets, gets_pending, promotes, discards, commands, run_command,
  command, call, run_calls,
}
use pipane.Registry.Index.{index_log, Held, Moves, Free, perform-Moves}
use pipane.Registry.Handling.{effects-Handled, effects-index}

-- Who the new index finds: the actor of the command by its new lease, or who was found before by
-- another process than this actor's.
index_cases :
    (new old m : Option ℕ) (p o q : ℕ)
    → (if same new (some p) then some o else if same old (some p) then none else m) ≡ some q
    → ((o ≡ q) × (new ≡ some p)) ⊎ ((same old (some p) ≡ false) × (m ≡ some q))
index_cases new old m p o q e = elim (Bool-cases (same new (some p))) [
  | inl now ↦ inl (let e' = rw now at e in (ground arith, ground arith))
  | inr later ↦ elim (Bool-cases (same old (some p))) [
    | inl own ↦ absurd (let e' = rw (later) at e in let e'' = rw own at e' in ground arith)
    | inr other ↦ inr (other, (let e' = rw (later) at e in rw other at e'))
  ]
]

module _ {Doc : Type 0} where
  -- The index of processes finds exactly the actor whose lease the process is: so no two actors hold
  -- one process. An actor that a path finds is for this path, and each actor holds a lease or is
  -- detached.
  pub record Indexed (r : Registry Doc) : Type 0 where
    pub known :
        (p o : ℕ)
        → get p r.actors_by_process ≡ some o
        → leased (lease_of (get o r.objects)) ≡ some p
    pub found :
        (p o : ℕ)
        → leased (lease_of (get o r.objects)) ≡ some p
        → get p r.actors_by_process ≡ some o
    pub named :
        (path o : ℕ) (x : Object Doc)
        → get path r.actors ≡ some o
        → get o r.objects ≡ some x
        → x.session_path ≡ path
    pub stored : (path o : ℕ) → get path r.actors ≡ some o → o < r.next_object
    pub held : (o : ℕ) (x : Object Doc) → get o r.objects ≡ some x → Held x.actor
    pub numbered : (o : ℕ) → is_some (get o r.objects) ≡ true → o < r.next_object

  new_actor-Held : Held (new_actor {Doc = Doc})
  unfolding new_actor
  new_actor-Held = ground arith

  get_or_create-Indexed :
      (path : ℕ) (r : Registry Doc) → Indexed r → Indexed (get_or_create path r).1
  unfolding get_or_create new_actor
  get_or_create-Indexed path r v = elim (Option-cases (get path r.actors)) [
    | inr (o, there) ↦ rw (there, get_or_create) v
    | inl absent ↦
        rw (absent, get_or_create)
          (record {
            known = λ p o e. grind (arith, get-put, v.known p o e, v.numbered o);
            found = λ p o e. grind (arith, get-put, v.found p o);
            named = λ x o y e f. grind (arith, get-put, v.named x o y, v.stored x o);
            stored = λ x o e. grind (arith, get-put, v.stored x o);
            held = λ o x e. elim (Bool-cases (r.next_object == o)) [
              | inl new ↦
                  let fresh : record { session_path = path; actor = new_actor } ≡ x =
                    grind (arith, get-put) in
                  subst (λ y. Held y.actor) fresh new_actor-Held
              | inr old ↦ v.held o x (grind (arith, get-put))
            ];
            numbered = λ o e. grind (arith, get-put, v.numbered o);
          })
  ]

  -- The maps of paths and of pending paths, and what the listeners were given, do not matter.
  Indexed-actors :
      (r r' : Registry Doc)
      → r'.actors_by_process ≡ r.actors_by_process
      → r'.objects ≡ r.objects
      → r'.next_object ≡ r.next_object
      → ((path o : ℕ) → get path r'.actors ≡ some o → get path r.actors ≡ some o)
      → Indexed r
      → Indexed r'
  Indexed-actors r r' index objects next actors v = record {
    known = λ p o e. ground (arith, index, objects, v.known p o);
    found = λ p o e. ground (arith, index, objects, v.found p o);
    named = λ path o x e f. v.named path o x (actors path o e) (ground (arith, objects));
    stored = λ path o e. ground (arith, next, v.stored path o (actors path o e));
    held = λ o x e. v.held o x (ground (arith, objects));
    numbered = λ o e. ground (arith, next, objects, v.numbered o);
  }

  get_pending-Indexed : (path : ℕ) (r : Registry Doc) → Indexed r → Indexed (get_pending path r).1
  unfolding get_pending
  get_pending-Indexed path r v = elim (Option-cases (get path r.actors)) [
    | inr (o, there) ↦ rw (there, get_pending) v
    | inl absent ↦
        rw (absent, get_pending)
          (get_or_create-Indexed path _ (Indexed-actors r _ refl refl refl (λ x o e. e) v))
  ]

  promote_pending-Indexed :
      (path : ℕ) (r : Registry Doc) → Indexed r → Indexed (promote_pending path r)
  unfolding promote_pending publish_attached
  promote_pending-Indexed path r v =
      Indexed-actors r (promote_pending path r) (ground arith) (ground arith) (ground arith)
        (λ x o e. ground arith) v

  discard_pending-Indexed :
      (path : ℕ) (r : Registry Doc) → Indexed r → Indexed (discard_pending path r).1
  unfolding discard_pending
  discard_pending-Indexed path r v =
      Indexed-actors r (discard_pending path r).1 (ground arith) (ground arith) (ground arith)
        (λ x o e. grind (arith, get-remove)) v

  logless : {a : Actor Doc} → Held a → Held (record a { log = [] })
  logless v = record {
    owned = v.owned;
    together = v.together;
    attached_fully = v.attached_fully;
    released_fully = v.released_fully;
  }

  -- The object at `o` after a command, with the index that its log leads to.
  moved-Indexed :
      (o : ℕ) (x : Object Doc) (a : Actor Doc) (r : Registry Doc)
      → get o r.objects ≡ some x
      → Moves o r.actors_by_process (record (x.actor) { log = [] }) a
      → Indexed r
      → Indexed (record r {
        objects = put o (record x { actor = a }) r.objects;
        actors_by_process = index_log o a.log r.actors_by_process;
      })
  moved-Indexed o x a r there moves v = record {
    known = λ p q e.
        let e' = sym (moves.indexed p) ∙ e in
        let at_q = get-put o q (record x { actor = a }) r.objects in
        elim (index_cases (leased a.lease) (leased x.actor.lease) (get p r.actors_by_process) p o q
          e') [
            | inl (this, now) ↦ ground (arith, at_q, this, now)
            | inr (free, kept) ↦
                let before = v.known p q kept in ground (arith, at_q, free, before, there)
          ];
    found = λ p q e.
        let at_q = get-put o q (record x { actor = a }) r.objects in
        moves.indexed p ∙ elim (Bool-cases (o == q)) [
          | inl this ↦ ground (arith, at_q, this, e)
          | inr other ↦
              let before : leased (lease_of (get q r.objects)) ≡ some p =
                ground (arith, at_q, other, e) in
              let there_q = v.found p q before in
              ground (arith, other, there_q, there, v.found p o, moves.fresh p)
        ];
    named = λ path q y e f. grind (arith, get-put, v.named path q y e, v.named path o x);
    stored = v.stored;
    held = λ q y e. elim (Bool-cases (o == q)) [
      | inl this ↦
          let same_object : record x { actor = a } ≡ y = grind (arith, get-put) in
          subst (λ z. Held z.actor) same_object moves.held
      | inr other ↦ v.held q y (grind (arith, get-put))
    ];
    numbered = λ q e. grind (arith, get-put, v.numbered q, v.numbered o);
  }

module _ {Doc : Type 0} (api : Document Doc) where
  -- A process is attached only while no actor holds it: the pool leases a process to one owner.
  abbrev pub FreeCall : RegistryCall Doc → Registry Doc → Type 0
  FreeCall (commands o c) r = Free c r.actors_by_process
  FreeCall _ r = Unit

  abbrev pub FreeCalls : List (RegistryCall Doc) → Registry Doc → Type 0
  FreeCalls [] r = Unit
  FreeCalls (c ∷ cs) r = FreeCall c r × FreeCalls cs (call api c r)

  command-Indexed :
      (o : ℕ) (c : Command Doc) (x : Object Doc) (r : Registry Doc)
      → get o r.objects ≡ some x
      → Free c r.actors_by_process
      → Indexed r
      → Indexed (command api o c (some x) r)
  unfolding command
  command-Indexed o c x r there free v =
      let a = run_command api c x.actor in
      let before = record r { objects = put o (record x { actor = a }) r.objects } in
      let handled = effects-Handled o x.session_path a.log before in
      let moves : Moves o r.actors_by_process (record (x.actor) { log = [] }) a =
        perform-Moves o r.actors_by_process (record (x.actor) { log = [] })
          (logless (v.held o x there)) refl (λ p e. v.found p o (ground (arith, there, e))) api c
          free in
      Indexed-actors (record before { actors_by_process = index_log o a.log r.actors_by_process }) _
        (effects-index o x.session_path a.log before) handled.objects handled.next handled.actors
        (moved-Indexed o x a r there moves v)

  call-Indexed :
      (c : RegistryCall Doc) (r : Registry Doc) → FreeCall c r → Indexed r → Indexed (call api c r)
  unfolding call
  call-Indexed (gets path) r free v = get_or_create-Indexed path r v
  call-Indexed (gets_pending path) r free v = get_pending-Indexed path r v
  call-Indexed (promotes path) r free v = promote_pending-Indexed path r v
  call-Indexed (discards path) r free v = discard_pending-Indexed path r v
  call-Indexed (commands o c) r free v = elim (Option-cases (get o r.objects)) [
    | inl nobody ↦ rw nobody (unfold command in v)
    | inr (x, there) ↦ rw there (command-Indexed o c x r there free v)
  ]

  -- Whatever is done with the registry and its actors, as long as a process is attached only while
  -- no actor holds it: the index of processes finds exactly the actor whose lease is on the process,
  -- so no two actors hold one process; an actor that a path finds is for this path; and each actor
  -- holds a lease and a document exactly where it is not detached.
  pub run_calls-Indexed :
      (cs : List (RegistryCall Doc)) (r : Registry Doc)
      → FreeCalls cs r
      → Indexed r
      → Indexed (run_calls api cs r)
  unfolding run_calls
  run_calls-Indexed [] r free v = v
  run_calls-Indexed (c ∷ cs) r (free, rest) v =
      run_calls-Indexed cs (call api c r) rest (call-Indexed c r free v)
