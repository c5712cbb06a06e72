-- ===== src/Rpc/Claims.antt =====
-- What the numbers of a client are worth: `xid_` and `xid_rep_window_` of `rpcc`.
use lab_cse.Prelude.{
  ℕ, ◌+◌, ◌%◌, ◌^◌, ◌<◌, ◌≤◌, ◌≡◌, refl, sym, subst, ◌∙◌, Bool, true, false, not, ◌&&◌, ◌||◌, some,
  List, [], ◌∷◌, arith, ◌==◌, if◌then◌else◌, Bool-cases, inl, inr, ==_refl,
}
use lab_cse.Rpc.Marshall.{Bytes, Marshall, ReplyHeader}
use lab_cse.Rpc.Unmarshall.{Unmarshall, new_unmarshall, unpack_reply_header}
use lab_cse.Rpc.XidWindow.{front, update_xid_rep}
use lab_cse.Rpc.Acked.{
  elem, IsWindow, update-IsWindow, weaken-IsWindow, IsWindow-front, new-IsWindow,
}
use lab_cse.Rpc.Client.{
  Caller, Rpcc, new_rpcc, Begun, is_unbound, numbered, req_header, begin_call, keep_dup, set_dup,
  above_done, transmit, got_pdu, on_reply, end_call, note_dup, cancel, bound,
}

-- Number 0, which no request has, and the numbers given below `n` whose calls have a reply or
-- are over.
abbrev pub IsOver : ℕ → List ℕ → ℕ → Type 0
IsOver n over x = (x < n) × (((x == 0) || elem x over) ≡ true)

pub record IsClient (c : ℕ) (s : Rpcc) (over : List ℕ) : Type 0 where
  pub nonce : s.clt_nonce ≡ c
  pub given : 0 < s.xid
  pub window : IsWindow (IsOver s.xid over) s.xid_rep_window

pub new-IsClient : (c lossy : ℕ) → IsClient c (new_rpcc c lossy true) []
new-IsClient c lossy = record {
  nonce = refl;
  given = omega arith;
  window = new-IsWindow (IsOver 1 []) (omega arith, refl);
}

-- The next number is not yet given, and what the header claims is over.
pub req_header-IsOver :
    (c : ℕ) (s : Rpcc) (over : List ℕ) (proc : ℕ)
    → IsClient c s over
    → ((req_header s proc).xid_rep < (req_header s proc).xid)
      × ((x : ℕ) → x ≤ (req_header s proc).xid_rep → ((x == 0) || elem x over) ≡ true)
unfolding req_header
req_header-IsOver c s over proc i =
    let up = IsWindow-front (IsOver s.xid over) s.xid_rep_window i.window in
    ((up (front s.xid_rep_window) (omega arith)).0, λ x h. (up x h).1)

either_way :
    (c : ℕ) (a d : Bool) (s t : Rpcc) (x y z : Begun) (over : List ℕ)
    → IsClient c s over
    → IsClient c t over
    → (let r : Rpcc × Begun = if a then (s, x) else (if d then (s, y) else (t, z)) in
        IsClient c r.0 over)
either_way c true d s t x y z over i k = i
either_way c false true s t x y z over i k = i
either_way c false false s t x y z over i k = k

pub begin_call-IsClient :
    (c : ℕ) (s : Rpcc) (over : List ℕ) (proc : ℕ) (req : Marshall) (rep : Unmarshall)
    → s.xid + 1 < 2 ^ 32
    → IsClient c s over
    → IsClient c (begin_call s proc req rep).0 over
unfolding begin_call
begin_call-IsClient c s over proc req rep small i =
    let n : ℕ = (s.xid + 1) % 2 ^ 32 in
    let e : n ≡ s.xid + 1 = omega arith in
    let w : IsWindow (IsOver n over) s.xid_rep_window =
      weaken-IsWindow (IsOver s.xid over) (IsOver n over) s.xid_rep_window
        (λ x h. (omega (arith, h.0, e), h.1)) i.window in
    either_way c (is_unbound s proc) s.destroy_wait s (numbered s rep) _ _ _ over i
      (record { nonce = i.nonce; given = omega (arith, e, i.given); window = w })

-- One more call is over.
reported :
    (c : ℕ) (s t : Rpcc) (over : List ℕ) (x : ℕ)
    → x < s.xid
    → t.clt_nonce ≡ s.clt_nonce
    → t.xid ≡ s.xid
    → t.xid_rep_window ≡ update_xid_rep s.xid_rep_window x
    → IsClient c s over
    → IsClient c t (x ∷ over)
reported c s t over x lt d e f i =
    let more : IsWindow (IsOver s.xid (x ∷ over)) s.xid_rep_window =
      weaken-IsWindow (IsOver s.xid over) (IsOver s.xid (x ∷ over)) s.xid_rep_window
        (λ y h. (h.0, ground (arith, h.1))) i.window in
    let mine : IsOver s.xid (x ∷ over) x = (lt, ground (arith, ==_refl x)) in
    let w = update-IsWindow (IsOver s.xid (x ∷ over)) s.xid_rep_window x mine more in
    record {
      nonce = d ∙ i.nonce;
      given = subst (λ n. 0 < n) (sym e) i.given;
      window =
          subst (λ n. IsWindow (IsOver n (x ∷ over)) t.xid_rep_window) (sym e)
            (subst (λ v. IsWindow (IsOver s.xid (x ∷ over)) v) (sym f) w);
    }

same-IsClient :
    (c : ℕ) (s : Rpcc) (over : List ℕ) (x : ℕ) → IsClient c s over → IsClient c s (x ∷ over)
same-IsClient c s over x i = record {
  nonce = i.nonce;
  given = i.given;
  window =
      weaken-IsWindow (IsOver s.xid over) (IsOver s.xid (x ∷ over)) s.xid_rep_window
        (λ y h. (h.0, ground (arith, h.1))) i.window;
}

on_reply-IsClient :
    (c : ℕ) (s : Rpcc) (over : List ℕ) (u : Unmarshall) (h : ReplyHeader)
    → h.xid < s.xid
    → IsClient c s over
    → IsClient c (on_reply s (u, h)) (h.xid ∷ over)
unfolding on_reply
on_reply-IsClient c s over u h lt i = elim (Bool-cases u.ok) [
  | inl e ↦ rw e (reported c s _ over h.xid lt refl refl refl i)
  | inr e ↦ rw e (same-IsClient c s over h.xid i)
]

pub got_pdu-IsClient :
    (c : ℕ) (s : Rpcc) (over : List ℕ) (b : Bytes)
    → (unpack_reply_header (new_unmarshall b)).1.xid < s.xid
    → IsClient c s over
    → IsClient c (got_pdu s b) ((unpack_reply_header (new_unmarshall b)).1.xid ∷ over)
unfolding got_pdu
got_pdu-IsClient c s over b lt i =
    let r = unpack_reply_header (new_unmarshall b) in on_reply-IsClient c s over r.0 r.1 lt i

pub end_call-IsClient :
    (c : ℕ) (s : Rpcc) (over : List ℕ) (x : ℕ)
    → x < s.xid
    → IsClient c s over
    → IsClient c (end_call s x) (x ∷ over)
unfolding end_call
end_call-IsClient c s over x lt i = reported c s _ over x lt refl refl refl i

-- What touches neither the numbers nor the window.
module _ (c : ℕ) (s : Rpcc) (over : List ℕ) (i : IsClient c s over) where
  one_of : (b : Bool) (t : Rpcc) → IsClient c t over → IsClient c (if b then t else s) over
  one_of true t k = k
  one_of false t k = i

  first_of :
      (b : Bool) (t : Rpcc) (x y : List Bytes)
      → IsClient c t over
      → (let r : Rpcc × List Bytes = if b then (t, x) else (s, y) in IsClient c r.0 over)
  first_of true t x y k = k
  first_of false t x y k = i

  pub transmit-IsClient : (req : Marshall) → IsClient c (transmit s req).0 over
  unfolding transmit
  transmit-IsClient req =
      first_of s.reachable (record s { dup_req = keep_dup s.dup_req s.xid_rep_done }) _ []
        (record { nonce = i.nonce; given = i.given; window = i.window })

  pub note_dup-IsClient :
      (ca : Caller) (req : Marshall) (xid_rep : ℕ) → IsClient c (note_dup s ca req xid_rep) over
  unfolding note_dup
  note_dup-IsClient ca req xid_rep =
      one_of (ca.done && not (s.lossytest == 0))
        (record s {
          dup_req = set_dup s.dup_req req ca.xid;
          xid_rep_done = if above_done xid_rep s.xid_rep_done then some xid_rep else s.xid_rep_done;
        })
        (record { nonce = i.nonce; given = i.given; window = i.window })

  pub cancel-IsClient : IsClient c (cancel s) over
  unfolding cancel
  cancel-IsClient = record { nonce = i.nonce; given = i.given; window = i.window }

  pub bound-IsClient : (ret r : ℕ) → IsClient c (bound s ret r) over
  unfolding bound
  bound-IsClient ret r =
      one_of (ret == 0) (record s { bind_done = true; srv_nonce = r })
        (record { nonce = i.nonce; given = i.given; window = i.window })
