-- ===== src/Lib.antt =====
-- The perun node: off-chain payment channels for the users of a node, on top of go-perun.
--
-- A node keeps the sessions of its users, and the registries of contracts and currencies that they
-- share. A user's session keeps the peers that the user knows (an ID provider) and the channels of
-- the user (a channel registry). A channel wraps a state channel controller of go-perun: it sends
-- updates, keeps the responders of updates that come in until the user answers or the time is over,
-- caches notifications until there is a subscriber, and closes when the adjudicator contract settles
-- it. The payment app makes updates out of payments. The gRPC server gives all of this to clients,
-- and keeps a signal for each subscription.
--
--   Base: texts, numbers, lists, maps, signed integers, durations, and what a run comes to
--     (`Exec`: a value, a panic, or waiting for ever).
--   Perun: perun.go. The data that the parts exchange.
--   Errors: errors.go and the error part of perun.go. Go errors are values with their chain of
--     causes; `errors_as` is `errors.As`.
--   IdProvider: idprovider/local/cache.go. `write` is Write, `delete` is Delete, and so on.
--   Contracts: blockchain/ethereum/registry.go. `register_asset_erc20` is RegisterAssetERC20.
--   Currencies: currency/registry.go and currency/currency.go. `register_currency` is Register.
--   Session.Timeout: session/timeout.go. Durations are 64-bit patterns that wrap.
--   Session.ChRegistry: session/channelRegistry.go.
--   Session.Failures, Session.Opening: session/session.go. How errors of go-perun become errors of
--     the API, and what opening a channel makes of the balance info.
--   Session.State: session/session.go. The session and its methods: `add_peer_id` is AddPeerID,
--     `handle_proposal` is HandleProposal, `respond_ch_proposal` is RespondChProposal,
--     `open_channel` is OpenCh, `close_session` is Close, `route_update` is HandleUpdate, and so on.
--   Session.State.Starting, Restoring: session/user.go, session/config.go, the making of a client in
--     session/client.go, and in session/session.go `new_session`, which is New, with
--     `handle_restored_ch`, which is handleRestoredCh. Restored, Returning, Owned and Started have
--     the proofs.
--   Channel: session/channel.go. A method takes the channel to the channel after it: `handle_update`
--     is HandleUpdate, `respond_ch_update` is RespondChUpdate, `handle_adjudicator_event` is
--     HandleAdjudicatorEvent, `close` is Close. `Channel.Steps` has any sequence of calls,
--     `Channel.Life` a final update from its response to the closing, and what comes after.
--   Payment: app/payment/channel.go and session.go. `send_pay_ch_update` is SendPayChUpdate;
--     Payment.Sessions has the methods of sessions under their payment names.
--   Node: node/node.go. `new_node` is New, `add_token_currency` is RegisterCurrency, `open_session` is
--     OpenSession. Node.Service puts the node, the sessions, the channels and the payment app
--     together as what the server calls.
--   Grpc: api/grpc/server.go, and the messages of api/grpc/pb/api.proto. Grpc.Convert has the
--     conversions, Grpc.Server the table of subscriptions and the subscribing handlers, and
--     Grpc.Server.Handlers the other handlers under their names. Grpc.Events has any sequence of
--     requests, halves of subscribing handlers, and notifications; Grpc.Book the abstract view of the
--     table.
--   Tui: cmd/perunnodetui/. Tui.Entry and Tui.Requests have an entry of the table of channels and its
--     methods (channels.go), Tui.Registry registry.go, Tui.Client the requests of paymentclient.go,
--     and Tui.Commands commands.go with the handlers of notifications; Tui.Words and Tui.Text are
--     about texts.
--
-- Parameters: the controller and the responders of go-perun (`PChannel`), the checks of contracts
-- on the chain (`RoChainBackend`), the wallet (`WalletBackend`), the responders of proposals, the
-- funder and the client of go-perun (`Backend`, `Proposer`), the decimal library
-- (`DecimalLibrary`), the wallets, files, connections and database that a session starts from
-- (`Host`), those of the node (`NodeHost`, `Outside`), and the generated client (`NodeClient`). The
-- server is over an interface (`PayApi`), which Node.Service fills.
--
-- A subscriber is known by a number, and the calls of subscribers are kept as a trace in the order
-- in which they are made or spawned: the order in which spawned goroutines run is not modelled, nor
-- that a spawned call of a channel's subscriber reads the field of the subscriber when it runs. A
-- mutex is a flag: a method that meets it set blocks. Closing a channel blocks as well when the
-- watcher does not return once the controller is closed (`watch_returns`). The state of a controller
-- is never nil. Times are arguments, and one before 1970 is 0. Loops are recursion on the list that they go through; `send_cached` has as many
-- rounds as the cache has entries. The map of token contracts in the configuration of the node is the
-- list of its entries in the order in which they are visited. A signal of the server is a number, and
-- closing one that is nil or closed panics. An entry of the table is written back to its row after
-- each of its methods; its waiting for a time is a step of its own.
--
-- Not modelled: the shell of cmd/perunnodecli, the command that runs the node, and the drawing of the
-- screen; the reading of configuration files, the client of go-perun that session/client.go wraps,
-- networks, logs, generated code, and the mocks.
pub mod Base
pub mod Perun
pub mod Errors
pub mod IdProvider
pub mod Contracts
pub mod Currencies
pub mod Session
pub mod Channel
pub mod Payment
pub mod Node
pub mod Grpc
pub mod Tui
