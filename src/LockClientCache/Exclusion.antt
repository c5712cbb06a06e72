-- ===== src/LockClientCache/Exclusion.antt =====
-- Mutual exclusion of the lock service.
use lab_cse.Prelude.{
  ℕ, ◌≡◌, refl, ap, sym, subst, ◌∙◌, true, false, not, Option, none, some, [], ◌∷◌, if◌then◌else◌,
  Bool-cases, inl, inr,
}
use lab_cse.Prelude.Text.{Text, is_empty}
use lab_cse.LockServerCache
use lab_cse.LockServerCache.{Status, ok, Server, Acquired, init}
use lab_cse.LockServerCache.History.{
  asked, released, asks, releases, Reach, is_ok, owner, mutual_exclusion,
}
use lab_cse.LockClientCache.{acquiring, releasing}
use lab_cse.LockClientCache.Threads.{calling, holding, new_cache}
use lab_cse.LockClientCache.Invariant.{acts-front}
use lab_cse.LockClientCache.Turns.{calling_state}
use lab_cse.LockClientCache.Passing.{holding_state}
use lab_cse.LockClientCache.History.{Inv-one_holder}
use lab_cse.LockClientCache.Calls.{sound, has_lock}
use lab_cse.LockClientCache.Service.{
  Service, at, Serves, start, local, serve_acquire, acquired, serve_release, thread_gave,
  handler_gave, other_acquire, other_release,
}
use lab_cse.LockClientCache.Fairness.{
  Fair, new-Fair, local-Fair, answered-Fair, thread_gave-Fair, handler_gave-Fair, bystander,
  not_owner,
}
use lab_cse.LockClientCache.Owners.{
  Each, Each-at, Each-client, Each-answer, Each-acquired, Each-served, Each-gave, IsFair, same_text,
  owner_start, owner-asked, owner-released, owner-others,
}

-- The server answers a client that calls.
ask-Each :
    (lid : ℕ) (v : Service) (c : Text) (t : ℕ) (r : Acquired)
    → IsFair lid v
    → is_empty c ≡ false
    → (v.clients c).phase t ≡ calling
    → LockServerCache.acquire v.server lid c ≡ some r
    → Each
        (owner lid (asked lid c r.ret ∷ v.events))
        v.clients
        (at v.answers c (some r.ret))
        v.served
ask-Each lid v c t r i named p e =
    let own = owner lid v.events in
    let mine = i.each c in
    let k = v.clients c in
    let (_, _, f) = acts-front k t calling mine.inv p refl in
    let (asks_now, _) = calling_state k.lock.state k.revoking f in
    let quiet : sound acquiring (v.answers c) (v.served c) ≡ true =
      sym (ap (λ s. sound s (v.answers c) (v.served c)) asks_now) ∙ mine.sound_calls in
    let next = owner lid (asked lid c r.ret ∷ v.events) in
    elim (Bool-cases (is_ok r.ret)) [
      | inl y ↦
          let granted : r.ret ≡ ok = ok_of r.ret y in
          let nobody : own ≡ [] = mutual_exclusion lid c r i.reach e granted in
          let now : next ≡ c =
            owner-asked lid c r.ret v.events ∙ ap (λ b. if b then c else own) y in
          Each-answer next c v.clients v.answers v.served (some r.ret) (
            Each-at next c v.clients v.answers v.served k (some r.ret) (v.served c)
              (λ j differ.
                bystander own next j (v.clients j) (v.answers j) (v.served j)
                  (not_owner own j (v.clients j) (v.answers j) (v.served j) (i.each j)
                    (λ mine_now name. cc (sym (ap is_empty (sym nobody ∙ mine_now)), name)))
                  (i.each j))
              (record {
                inv = mine.inv;
                calls_late = mine.calls_late;
                sound_calls = ap (λ s. sound s (some r.ret) (v.served c)) asks_now ∙ quiet;
                owns = λ _. (now, named);
              }))
      | inr n ↦
          let same : next ≡ own =
            owner-asked lid c r.ret v.events ∙ ap (λ b. if b then c else own) n in
          subst (λ o. Each o v.clients (at v.answers c (some r.ret)) v.served) (sym same)
            (Each-answer own c v.clients v.answers v.served (some r.ret) (
              Each-at own c v.clients v.answers v.served k (some r.ret) (v.served c)
                (λ j differ. i.each j)
                (record {
                  inv = mine.inv;
                  calls_late = mine.calls_late;
                  sound_calls = ap (λ s. sound s (some r.ret) (v.served c)) asks_now ∙ quiet;
                  owns = λ h.
                      let none_yet : has_lock k.lock.state (some r.ret) (v.served c) ≡ false =
                        ap (λ s. has_lock s (some r.ret) (v.served c)) asks_now ∙ n in
                      absurd (cc (h, none_yet));
                })))
    ]
  where
    ok_of : (st : Status) → is_ok st ≡ true → st ≡ ok
    ok_of ok h = refl
    ok_of Status.retry h = cc h
    ok_of Status.rpcerr h = cc h
    ok_of Status.noent h = cc h
    ok_of Status.ioerr h = cc h

released_sound :
    (p : Option Status) → sound releasing p false ≡ true → sound releasing p true ≡ true
released_sound none h = refl
released_sound (some st) h = h

-- The server takes the lock back from a client that gives it back.
release-Each :
    (lid : ℕ) (v : Service) (c : Text) (st : Status)
    → IsFair lid v
    → (v.clients c).lock.state ≡ releasing
    → v.served c ≡ false
    → Each (owner lid (released lid c st ∷ v.events)) v.clients v.answers (at v.served c true)
release-Each lid v c st i s g =
    let own = owner lid v.events in
    let next = owner lid (released lid c st ∷ v.events) in
    let mine = i.each c in
    let k = v.clients c in
    let p = v.answers c in
    let has_it : has_lock k.lock.state p (v.served c) ≡ true =
      ap (λ x. has_lock x p (v.served c)) s ∙ ap not g in
    let (owner_c, _) = mine.owns has_it in
    let before : sound releasing p false ≡ true =
      sym (ap (sound releasing p) g)
      ∙ sym (ap (λ x. sound x p (v.served c)) s)
      ∙ mine.sound_calls in
    let own_next = owner-released lid c st v.events in
    Each-served next c v.clients v.answers v.served true (
      Each-at next c v.clients v.answers v.served k p true
        (λ j differ. elim (Bool-cases (is_ok st)) [
          | inl y ↦
              bystander own next j (v.clients j) (v.answers j) (v.served j)
                (not_owner own j (v.clients j) (v.answers j) (v.served j) (i.each j)
                  (λ own_j name. same_text j c differ (sym owner_c ∙ own_j)))
                (i.each j)
          | inr n ↦
              let same : own ≡ next = sym (own_next ∙ ap (λ b. if b then [] else own) n) in
              subst (λ o. Fair o j (v.clients j) (v.answers j) (v.served j)) same (i.each j)
        ])
        (record {
          inv = mine.inv;
          calls_late = mine.calls_late;
          sound_calls = ap (λ x. sound x p true) s ∙ released_sound p before;
          owns = λ h.
              let gone : has_lock k.lock.state p true ≡ false = ap (λ x. has_lock x p true) s in
              absurd (cc (h, gone));
        }))

Serves-IsFair : (lid : ℕ) (v : Service) → Serves lid v → IsFair lid v
Serves-IsFair lid v start = record {
  reach = Reach.start;
  each = λ c. subst (λ o. Fair o c new_cache none false) (sym (owner_start lid)) (new-Fair c);
}
Serves-IsFair lid _ (local {v} {d} {a} r c named s h) =
    let i = Serves-IsFair lid v r in
    let own = owner lid v.events in
    record {
      reach = i.reach;
      each = Each-client own c v.clients v.answers v.served d (
          Each-at own c v.clients v.answers v.served d (v.answers c) (v.served c)
            (λ j differ. i.each j)
            (local-Fair own c (v.clients c) d (v.answers c) (v.served c) a s h (i.each c)));
    }
Serves-IsFair lid _ (serve_acquire {v} r c t q named p none_yet e) =
    let i = Serves-IsFair lid v r in
    record {
      reach = Reach.next i.reach (asks lid c q named e);
      each = ask-Each lid v c t q i named p e;
    }
Serves-IsFair lid _ (acquired {v} {d} r c t st e s) =
    let i = Serves-IsFair lid v r in
    let own = owner lid v.events in
    let f = subst (λ p. Fair own c (v.clients c) p (v.served c)) e (i.each c) in
    record {
      reach = i.reach;
      each = Each-acquired own c v.clients v.answers v.served d none (
          Each-at own c v.clients v.answers v.served d none (v.served c) (λ j differ. i.each j)
            (answered-Fair own c (v.clients c) t st d (v.served c) s f));
    }
Serves-IsFair lid _ (serve_release {v} {s} {st} r c at_release g e) =
    let i = Serves-IsFair lid v r in
    record {
      reach = Reach.next i.reach (releases lid c s st e);
      each = release-Each lid v c st i at_release g;
    }
Serves-IsFair lid _ (thread_gave {v} {d} r c t g s) =
    let i = Serves-IsFair lid v r in
    let own = owner lid v.events in
    let f = subst (λ b. Fair own c (v.clients c) (v.answers c) b) g (i.each c) in
    record {
      reach = i.reach;
      each = Each-gave own c v.clients v.answers v.served d false (
          Each-at own c v.clients v.answers v.served d (v.answers c) false (λ j differ. i.each j)
            (thread_gave-Fair own c (v.clients c) t d (v.answers c) s f));
    }
Serves-IsFair lid _ (handler_gave {v} {d} r c g s) =
    let i = Serves-IsFair lid v r in
    let own = owner lid v.events in
    let f = subst (λ b. Fair own c (v.clients c) (v.answers c) b) g (i.each c) in
    record {
      reach = i.reach;
      each = Each-gave own c v.clients v.answers v.served d false (
          Each-at own c v.clients v.answers v.served d (v.answers c) false (λ j differ. i.each j)
            (handler_gave-Fair own c (v.clients c) d (v.answers c) s f));
    }
Serves-IsFair lid _ (other_acquire {v} r l c q differ named e) =
    let i = Serves-IsFair lid v r in
    record {
      reach = Reach.next i.reach (asks l c q named e);
      each =
          subst (λ o. Each o v.clients v.answers v.served)
            (sym (owner-others lid l c q.ret v.events differ).0) i.each;
    }
Serves-IsFair lid _ (other_release {v} {s} {st} r l c differ e) =
    let i = Serves-IsFair lid v r in
    record {
      reach = Reach.next i.reach (releases l c s st e);
      each =
          subst (λ o. Each o v.clients v.answers v.served)
            (sym (owner-others lid l c st v.events differ).1) i.each;
    }

-- In every run of the lock service, where waits end by signals only, each call of a client is
-- served once, and retries come while a client asks: if a thread of one client and a thread of
-- another hold the same lock, the clients are the same, and the threads too; and the client owns the
-- lock by the replies of the server.
pub service_exclusion :
    {lid : ℕ} {v : Service}
    → Serves lid v
    → (c d : Text) (t u : ℕ) → (v.clients c).phase t ≡ holding
    → (v.clients d).phase u ≡ holding
    → (c ≡ d) × (t ≡ u) × (owner lid v.events ≡ c)
service_exclusion {lid} {v} r c d t u p q =
    let i = Serves-IsFair lid v r in
    let own_c = holder-owns lid v i c t p in
    let own_d = holder-owns lid v i d u q in
    let same : c ≡ d = sym own_c ∙ own_d in
    let q_c : (v.clients c).phase u ≡ holding = ap (λ x. (v.clients x).phase u) same ∙ q in
    (same, Inv-one_holder (v.clients c) t u (i.each c).inv p q_c, own_c)
  where
    holder-owns :
        (lid : ℕ) (v : Service)
        → IsFair lid v
        → (c : Text) (t : ℕ) → (v.clients c).phase t ≡ holding
        → owner lid v.events ≡ c
    holder-owns lid v i c t p =
        let k = v.clients c in
        let f = i.each c in
        let (_, _, fit) = acts-front k t holding f.inv p refl in
        let s = (holding_state k.lock.state k.revoking fit).0 in
        (f.owns (ap (λ x. has_lock x (v.answers c) (v.served c)) s)).0
