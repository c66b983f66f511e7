-- ===== src/Node/Service.antt =====
-- node/node.go, app/payment/: the node as what the gRPC server calls. A session is known by its ID,
-- and a channel by the ID of its session and its place in the list of channels, from which channels
-- are never removed.
use dst_go.Base.{ℕ, String, none, some, Exec, done, panic, ◌>>=◌, or_panic, get_elem?, set, lookup}
use dst_go.Perun.Info.{Address, PayChInfo}
use dst_go.Errors.{Fallible, ApiResult, returned, refused}
use dst_go.Channel.Updates.{Ch, sub_ch_updates}
use dst_go.Payment.{PayReply, send_pay_ch_update}
use dst_go.Payment.Notifs.{
  get_pay_ch_info, unsub_pay_ch_updates, respond_pay_ch_update, close_pay_ch,
}
use dst_go.Payment.Sessions.{
  result_of, to_pay_session, open_pay_ch, get_pay_chs_info, sub_pay_ch_proposals,
  unsub_pay_ch_proposals, respond_pay_ch_proposal, close_pay_session,
}
use dst_go.Session.State.{Backend, SessionOf}
use dst_go.Session.State.Peers.{add_peer_id, get_peer_id}
use dst_go.Session.State.Channels.{get_ch, with_chs}
use dst_go.Session.State.Open.{Proposer}
use dst_go.Session.State.Starting.{Host}
use dst_go.Session.State.Restoring.{deploy_asset_erc20}
use dst_go.Node.{
  NodeHost, NodeOf, backend_at, add_token_currency, help, get_session, put_session, open_session,
}
use dst_go.Grpc.Api.{PayApi}

-- What the sessions of the node take from outside, at a state of the node.
pub record Outside (b : Backend) (host : NodeHost) : Type 1 where
  pub session_host : (n : NodeOf b host) → Host (backend_at b host n)
  pub client : (n : NodeOf b host) → Proposer (backend_at b host n)
  pub deploy : String → Address → Address → Fallible Address

module _ (b : Backend) (host : NodeHost) where
  abbrev pub N : Type 0
  N = NodeOf b host

  -- A method of the session that a reference leads to.
  unfoldable pub on_session :
      {A : Type 0} → String → (SessionOf b → Exec (SessionOf b × A)) → N → Exec (N × A)
  unfolding get_session put_session
  on_session ref method n = elim (get_session b host ref n) [
    | refused e ↦ panic
    | returned s ↦ method s >>= λ out. done (put_session b host ref out.0 n, out.1)
  ]

  unfoldable pub see_session : {A : Type 0} → String → (SessionOf b → Exec A) → N → Exec A
  unfolding get_session
  see_session ref method n = elim (get_session b host ref n) [
    | refused e ↦ panic
    | returned s ↦ method s
  ]

  -- The place of a channel that the registry has found.
  unfoldable pub place_of : SessionOf b → String → ℕ
  place_of s ch_id = elim (lookup ch_id s.chs.ch_idxs) [ none ↦ 0 | some i ↦ i ]

  unfoldable pub find_ch : String → String → N → Exec (ApiResult (String × ℕ))
  unfolding see_session place_of
  find_ch ref ch_id n =
      see_session ref
        (λ s. get_ch (backend_at b host n) ch_id s >>= λ r. elim r [
          | refused e ↦ done (refused e)
          | returned ch ↦ done (returned (ref, place_of s ch_id))
        ])
        n

  -- A method of the channel that a reference leads to.
  unfoldable pub on_ch :
      {A : Type 0} → String × ℕ → (Ch b.pc → Exec (Ch b.pc × A)) → N → Exec (N × A)
  unfolding on_session
  on_ch (ref, i) method n =
      on_session ref
        (λ s. do
          ch ← or_panic (get_elem? s.chs.chs i)
          out ← method ch
          done (with_chs (backend_at b host n) (set s.chs.chs i out.0) s, out.1))
        n

  unfoldable pub see_ch : {A : Type 0} → String × ℕ → (Ch b.pc → Exec A) → N → Exec A
  unfolding see_session
  see_ch (ref, i) method n =
      see_session ref (λ s. or_panic (get_elem? s.chs.chs i) >>= λ ch. method ch) n

  -- A method of a channel that gives an info and an error.
  unfoldable pub replied : Exec (PayReply b.pc) → Exec (Ch b.pc × ApiResult PayChInfo)
  unfolding result_of
  replied m = m >>= λ out. done (out.0, result_of out.1 out.2)

  -- The node as the server calls it.
  abbrev pub pay_api : Outside b host → PayApi
  pay_api outside = record {
    Node = N;
    SessionRef = String;
    ChRef = String × ℕ;
    time = λ n. n.clock;
    get_config = λ n. n.cfg;
    help = help;
    register_currency = add_token_currency host;
    open_session = λ file n. open_session b host outside.session_host file n >>= λ out.
        done (out.0, to_pay_session out.1);
    get_session = λ id n. elim (get_session b host id n) [
      | refused e ↦ done (refused e)
      | returned s ↦ done (returned id)
    ];
    add_peer_id = λ ref p n. on_session ref (add_peer_id (backend_at b host n) p) n;
    get_peer_id = λ ref alias n. see_session ref (get_peer_id (backend_at b host n) alias) n;
    open_pay_ch = λ ctx ref bal secs n.
        on_session ref (open_pay_ch (backend_at b host n) (outside.client n) ctx bal secs) n;
    get_pay_chs_info = λ ref n. see_session ref (get_pay_chs_info (backend_at b host n)) n;
    sub_pay_ch_proposals =
        λ ref f n. on_session ref (sub_pay_ch_proposals (backend_at b host n) f) n;
    unsub_pay_ch_proposals =
        λ ref n. on_session ref (unsub_pay_ch_proposals (backend_at b host n)) n;
    respond_pay_ch_proposal = λ ctx ref id accept n.
        on_session ref (respond_pay_ch_proposal (backend_at b host n) ctx n.clock id accept) n;
    close_session = λ ref force n. on_session ref (close_pay_session (backend_at b host n) force) n;
    deploy_asset_erc20 = λ ref token n.
        see_session ref (deploy_asset_erc20 (backend_at b host n) (outside.deploy ref) token) n;
    get_ch = find_ch;
    send_pay_ch_update =
        λ ctx ch payments n. on_ch ch (λ c. replied (send_pay_ch_update b.pc ctx payments c)) n;
    sub_pay_ch_updates = λ ch f n. on_ch ch (sub_ch_updates b.pc f) n;
    unsub_pay_ch_updates = λ ch n. on_ch ch (unsub_pay_ch_updates b.pc) n;
    respond_pay_ch_update = λ ctx ch id accept n.
        on_ch ch (λ c. replied (respond_pay_ch_update b.pc ctx n.clock id accept c)) n;
    get_pay_ch_info = λ ch n. see_ch ch (get_pay_ch_info b.pc) n;
    close_pay_ch = λ ctx ch n. on_ch ch (λ c. replied (close_pay_ch b.pc ctx c)) n;
  }
