-- ===== src/Rpc/Net.antt =====
-- Clients and a server together: the network delivers a request any number of times and in any
-- order, or not at all; replies and the ends of calls come in between.
use lab_cse.Prelude.{
  ℕ, ◌+◌, ◌^◌, ◌<◌, ◌≤◌, ◌≡◌, true, false, ◌||◌, List, [], ◌∷◌, ◌==◌, if◌then◌else◌,
}
use lab_cse.Rpc.Marshall.{Bytes, Marshall, ReqHeader, ReplyHeader}
use lab_cse.Rpc.Unmarshall.{Unmarshall, new_unmarshall, unpack_reply_header}
use lab_cse.Rpc.ReplyWindow.{Windows, checkduplicate_and_update, add_reply}
use lab_cse.Rpc.AtMostOnce.{Received, note}
use lab_cse.Rpc.Acked.{elem}
use lab_cse.Rpc.Client.{
  Rpcc, new_rpcc, Begun, refused, begun, begin_call, got_pdu, end_call, Caller, transmit, note_dup,
  cancel, bound,
}

-- The clients by their number, the numbers of their calls that have a reply or are over, the
-- headers of all requests so far, the server's windows, and what was handed to handlers.
pub record Net : Type 0 where
  pub clients : ℕ → Rpcc
  pub over : ℕ → List ℕ
  pub sent : List ReqHeader
  pub windows : Windows
  pub run : List Received

abbrev pub sent_by : Begun → List ReqHeader → List ReqHeader
sent_by (refused r) hs = hs
sent_by (begun h m) hs = h ∷ hs

-- A request with this number is on its way, or was.
pub data Sent : ReqHeader → List ReqHeader → Type 0 where
  newest : {h : ReqHeader} {hs : List ReqHeader} → Sent h (h ∷ hs)
  earlier : {h g : ReqHeader} {hs : List ReqHeader} → Sent h hs → Sent h (g ∷ hs)

abbrev pub change : {A : Type 0} → (ℕ → A) → ℕ → A → ℕ → A
change f c x i = if i == c then x else f i

-- The header that a client gets in a reply.
abbrev pub header_of : Bytes → ReplyHeader
header_of b = (unpack_reply_header (new_unmarshall b)).1

-- Each client has its own nonce, and makes fewer than 2 ^ 32 calls. A reply has a number that its
-- client has given to a request, and a call ends that has begun. As in `dispatch`, a request of a
-- client with nonce 0 goes to its handler unchecked.
pub data Runs : Net → Type 0 where
  start_all :
      (clients : ℕ → Rpcc)
      → ((c : ℕ) → clients c ≡ new_rpcc c (clients c).lossytest true)
      → Runs (record { clients = clients; over = λ _. []; sent = []; windows = λ _. []; run = [] })
  call :
      {n : Net}
      → Runs n
      → (c proc : ℕ) (req : Marshall) (rep : Unmarshall) → (n.clients c).xid + 1 < 2 ^ 32
      → Runs (record n {
        clients = change n.clients c (begin_call (n.clients c) proc req rep).0;
        sent = sent_by (begin_call (n.clients c) proc req rep).1 n.sent;
      })
  deliver :
      {n : Net}
      → Runs n
      → (h : ReqHeader) → Sent h n.sent
      → (h.clt_nonce == 0) ≡ false
      → Runs (record n {
        windows = (checkduplicate_and_update n.windows h.clt_nonce h.xid h.xid_rep).0;
        run =
            note
              (checkduplicate_and_update n.windows h.clt_nonce h.xid h.xid_rep).1
              (record { clt_nonce = h.clt_nonce; xid = h.xid })
              n.run;
      })
  deliver_unchecked :
      {n : Net}
      → Runs n
      → (h : ReqHeader) → Sent h n.sent
      → h.clt_nonce ≡ 0
      → Runs (record n { run = record { clt_nonce = 0; xid = h.xid } ∷ n.run })
  save :
      {n : Net}
      → Runs n
      → (h : ReqHeader) (b : Bytes)
      → Runs (record n { windows = add_reply n.windows h.clt_nonce h.xid b })
  answer :
      {n : Net}
      → Runs n
      → (c : ℕ) (b : Bytes) → (header_of b).xid < (n.clients c).xid
      → Runs (record n {
        clients = change n.clients c (got_pdu (n.clients c) b);
        over = change n.over c ((header_of b).xid ∷ n.over c);
      })
  end :
      {n : Net}
      → Runs n
      → (c x : ℕ) → x < (n.clients c).xid
      → Runs (record n {
        clients = change n.clients c (end_call (n.clients c) x);
        over = change n.over c (x ∷ n.over c);
      })
  send :
      {n : Net}
      → Runs n
      → (c : ℕ) (req : Marshall)
      → Runs (record n { clients = change n.clients c (transmit (n.clients c) req).0 })
  note_done :
      {n : Net}
      → Runs n
      → (c : ℕ) (ca : Caller) (req : Marshall) (xid_rep : ℕ)
      → Runs (record n { clients = change n.clients c (note_dup (n.clients c) ca req xid_rep) })
  cancel_calls :
      {n : Net}
      → Runs n
      → (c : ℕ) → Runs (record n { clients = change n.clients c (cancel (n.clients c)) })
  end_bind :
      {n : Net}
      → Runs n
      → (c ret r : ℕ) → Runs (record n { clients = change n.clients c (bound (n.clients c) ret r) })

-- A header does not claim its own request, and all that it claims is over.
pub record IsClaim (over : ℕ → List ℕ) (h : ReqHeader) : Type 0 where
  pub before : h.xid_rep < h.xid
  pub is_over : (x : ℕ) → x ≤ h.xid_rep → ((x == 0) || elem x (over h.clt_nonce)) ≡ true
