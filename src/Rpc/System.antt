-- ===== src/Rpc/System.antt =====
-- What a client claims to have replies for, and that the server hands no request over twice, when
-- clients and a server run together.
use lab_cse.Prelude.{
  ℕ, ◌≡◌, sym, subst, Bool, true, false, ◌||◌, List, [], ◌∷◌, arith, ◌==◌, if◌then◌else◌,
  Bool-cases, inl, inr,
}
use lab_cse.Rpc.Marshall.{Marshall, ReqHeader, pack_req_header}
use lab_cse.Rpc.Calls.{bind_failure, cancel_failure}
use lab_cse.Rpc.ReplyWindow.{checkduplicate_and_update}
use lab_cse.Rpc.AtMostOnce.{
  is_fresh, was_run, Reach, start, receive, reply, unchecked, at_most_once,
}
use lab_cse.Rpc.Acked.{elem}
use lab_cse.Rpc.Client.{
  Rpcc, Begun, refused, begun, is_unbound, numbered, req_header, begin_call, got_pdu, end_call,
  transmit, note_dup, cancel, bound,
}
use lab_cse.Rpc.Claims.{
  IsClient, new-IsClient, req_header-IsOver, begin_call-IsClient, got_pdu-IsClient,
  end_call-IsClient, transmit-IsClient, note_dup-IsClient, cancel-IsClient, bound-IsClient,
}
use lab_cse.Rpc.Net.{
  Net, sent_by, Sent, newest, earlier, change, header_of, Runs, start_all, call, deliver,
  deliver_unchecked, save, answer, end, send, note_done, cancel_calls, end_bind, IsClaim,
}

record IsNet (n : Net) : Type 0 where
  client : (c : ℕ) → IsClient c (n.clients c) (n.over c)
  sent : (h : ReqHeader) → Sent h n.sent → IsClaim n.over h
  reach : Reach n.windows n.run

none-Sent : {h : ReqHeader} → Sent h [] → ⊥
none-Sent k = elim k [ ]

change_lem :
    {A B : Type 0} (P : ℕ → A → B → Type 0) (f : ℕ → A) (g : ℕ → B) (c : ℕ) (x : A) (y : B)
    → ((i : ℕ) → P i (f i) (g i))
    → P c x y
    → (i : ℕ) → P i (change f c x i) (change g c y i)
change_lem P f g c x y old new i = elim (Bool-cases (i == c)) [
  | inl e ↦ let z : c ≡ i = ground arith in rw e (subst (λ j. P j x y) z new)
  | inr e ↦ rw e (old i)
]

change_same :
    {A B : Type 0} (P : ℕ → A → B → Type 0) (f : ℕ → A) (g : ℕ → B) (c : ℕ) (x : A)
    → ((i : ℕ) → P i (f i) (g i))
    → P c x (g c)
    → (i : ℕ) → P i (change f c x i) (g i)
change_same P f g c x old new i = elim (Bool-cases (i == c)) [
  | inl e ↦ let z : c ≡ i = ground arith in rw e (subst (λ j. P j x (g j)) z new)
  | inr e ↦ rw e (old i)
]

more_over :
    (over : ℕ → List ℕ) (h : ReqHeader) (c x : ℕ)
    → IsClaim over h
    → IsClaim (change over c (x ∷ over c)) h
more_over over h c x k = record {
  before = k.before;
  is_over = λ y le. elim (Bool-cases (h.clt_nonce == c)) [
    | inl e ↦
        let z : h.clt_nonce ≡ c = ground arith in
        let old = subst (λ i. ((y == 0) || elem y (over i)) ≡ true) z (k.is_over y le) in
        rw e (ground (arith, old))
    | inr e ↦ rw e (k.is_over y le)
  ];
}

new_claim : (n : Net) (c proc : ℕ) → IsNet n → IsClaim n.over (req_header (n.clients c) proc)
unfolding req_header
new_claim n c proc i =
    let k = req_header-IsOver c (n.clients c) (n.over c) proc (i.client c) in
    record { before = k.0; is_over = λ x le. rw ((i.client c).nonce) (k.1 x le) }

newest_or :
    (P : ReqHeader → Type 0) (a d : Bool) (s t : Rpcc) (x y : ℕ) (h g : ReqHeader) (m : Marshall)
    (hs : List ReqHeader)
    → P h
    → ((g : ReqHeader) → Sent g hs → P g)
    → (let r : Rpcc × Begun =
          if a then (s, refused x) else (if d then (s, refused y) else (t, begun h m)) in
        Sent g (sent_by r.1 hs) → P g)
newest_or P true d s t x y h g m hs p f k = f g k
newest_or P false true s t x y h g m hs p f k = f g k
newest_or P false false s t x y h g m hs p f newest = p
newest_or P false false s t x y h g m hs p f (earlier k) = f g k

client_only :
    (n : Net)
    → IsNet n
    → (c : ℕ) (s : Rpcc) → IsClient c s (n.over c)
    → IsNet (record n { clients = change n.clients c s })
client_only n i c s k = record {
  client = change_same IsClient n.clients n.over c s i.client k;
  sent = i.sent;
  reach = i.reach;
}

Runs-IsNet : {n : Net} → Runs n → IsNet n
unfolding begin_call
Runs-IsNet (start_all clients e) = record {
  client = λ c. subst (λ s. IsClient c s []) (sym (e c)) (new-IsClient c (clients c).lossytest);
  sent = λ h k. absurd (none-Sent k);
  reach = start;
}
Runs-IsNet (call {n} r c proc req rep small) =
    let i = Runs-IsNet r in
    record {
      client =
          change_same IsClient n.clients n.over c (begin_call (n.clients c) proc req rep).0 i.client
            (begin_call-IsClient c (n.clients c) (n.over c) proc req rep small (i.client c));
      sent = λ h k.
          let g = req_header (n.clients c) proc in
          newest_or (IsClaim n.over) (is_unbound (n.clients c) proc) (n.clients c).destroy_wait
            (n.clients c) (numbered (n.clients c) rep) bind_failure cancel_failure g h
            (pack_req_header req g) n.sent (new_claim n c proc i) i.sent k;
      reach = i.reach;
    }
Runs-IsNet (deliver {n} r h k some_nonce) =
    let i = Runs-IsNet r in
    record {
      client = i.client;
      sent = i.sent;
      reach = receive i.reach h.clt_nonce h.xid h.xid_rep (i.sent h k).before;
    }
Runs-IsNet (deliver_unchecked {n} r h k zero_nonce) =
    let i = Runs-IsNet r in
    record { client = i.client; sent = i.sent; reach = unchecked i.reach h.xid }
Runs-IsNet (save {n} r h b) =
    let i = Runs-IsNet r in
    record { client = i.client; sent = i.sent; reach = reply i.reach h.clt_nonce h.xid b }
Runs-IsNet (answer {n} r c b lt) =
    let i = Runs-IsNet r in
    record {
      client =
          change_lem IsClient n.clients n.over c (got_pdu (n.clients c) b)
            ((header_of b).xid ∷ n.over c) i.client
            (got_pdu-IsClient c (n.clients c) (n.over c) b lt (i.client c));
      sent = λ h k. more_over n.over h c (header_of b).xid (i.sent h k);
      reach = i.reach;
    }
Runs-IsNet (end {n} r c x lt) =
    let i = Runs-IsNet r in
    record {
      client =
          change_lem IsClient n.clients n.over c (end_call (n.clients c) x) (x ∷ n.over c) i.client
            (end_call-IsClient c (n.clients c) (n.over c) x lt (i.client c));
      sent = λ h k. more_over n.over h c x (i.sent h k);
      reach = i.reach;
    }
Runs-IsNet (send {n} k c req) =
    let i = Runs-IsNet k in
    client_only n i c (transmit (n.clients c) req).0
      (transmit-IsClient c (n.clients c) (n.over c) (i.client c) req)
Runs-IsNet (note_done {n} k c ca req x) =
    let i = Runs-IsNet k in
    client_only n i c (note_dup (n.clients c) ca req x)
      (note_dup-IsClient c (n.clients c) (n.over c) (i.client c) ca req x)
Runs-IsNet (cancel_calls {n} k c) =
    let i = Runs-IsNet k in
    client_only n i c (cancel (n.clients c))
      (cancel-IsClient c (n.clients c) (n.over c) (i.client c))
Runs-IsNet (end_bind {n} k c ret r) =
    let i = Runs-IsNet k in
    client_only n i c (bound (n.clients c) ret r)
      (bound-IsClient c (n.clients c) (n.over c) (i.client c) ret r)

-- In whatever order calls, deliveries, replies and ends of calls come: a header that was sent
-- claims replies for smaller numbers than its own only, and every number above 0 that it claims
-- is of a call of that client that has a reply or is over.
pub Sent-IsClaim : {n : Net} → Runs n → (h : ReqHeader) → Sent h n.sent → IsClaim n.over h
Sent-IsClaim r h k = (Runs-IsNet r).sent h k

-- In whatever order calls, deliveries, replies and ends of calls come: a request of a
-- client with a nonce other than 0 that was sent and handed to its handler is not handed to it
-- again when it is delivered again.
pub handed_once :
    {n : Net}
    → Runs n
    → (h : ReqHeader) → Sent h n.sent
    → (h.clt_nonce == 0) ≡ false
    → was_run n.run h.clt_nonce h.xid ≡ true
    → is_fresh (checkduplicate_and_update n.windows h.clt_nonce h.xid h.xid_rep).1 ≡ false
handed_once r h k some_nonce ran =
    let i = Runs-IsNet r in
    at_most_once i.reach h.clt_nonce h.xid h.xid_rep some_nonce ran (i.sent h k).before
