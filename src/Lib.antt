-- ===== src/Lib.antt =====
-- Demand CLI is the proxy of a miner: it translates the SV1 work of miners to SV2 channels of a
-- pool, limits what goes upstream, and adds RSK merge mining to the templates of a Bitcoin node. The
-- library models these parts of it:
--
-- * ShareLimit (src/translator/utils.rs): the rolling limit of 70 shares a minute, the flag that
--   the rest reads, the background loops that ask for other difficulties, and the share counts of
--   the connections. `allow_submit_share` stands where a share goes upstream; the loops of
--   `check_share_rate_limit` share its queue, and Rounds takes each round in two steps, the count
--   under the lock and the rest after it, between which other loops and shares may come.
-- * UpstreamRetarget (src/translator/upstream/diff_management.rs): the limiter of `UpdateChannel`
--   messages and the passes of `run_diff_management`, which the requests of ShareLimit wake.
-- * MergeMining (src/merge_mining.rs): Types has the state `Core` with its `ContextState`; Context
--   the bounded tables of templates and job bindings; Bindings the operations by which the job
--   declarator and the translator announce, claim and activate bindings; Commitment the rules of
--   RskJ; Template the change of a template of the node; Session all these as steps of one run;
--   Observer the thread that turns accepted shares into jobs for RSK (`worker_loop`, in
--   Observer/Worker `process_candidate`), and the queue of found jobs; Pair `DesiredPair::parse` and
--   the handlers `set_pair_api` and `poll_found_job_api`, which check the secret.
-- * ProxyProtocol (src/proxy_protocol.rs): the header before a miner's connection: its detection,
--   the versions 1 and 2 (Accept has version 1), and the three modes of `accept`.
-- * Sv1 (src/translator/proxy/next_mining_notify.rs, `effective_version`, `validate_share` and
--   `get_hash` of src/translator/utils.rs, `sv1_rolling` of src/shared/utils.rs): the messages of
--   mining, the version of a share and, in Share, its hash.
-- * RecentJobs (src/translator/downstream/downstream.rs): the jobs that a connection has issued,
--   and in Buffer the ring of the pool jobs they are for.
-- * Downstream (src/translator/downstream/downstream.rs, and `process_incoming_message` of
--   src/translator/downstream/receive_from_downstream.rs): the connection of a miner; Submit and
--   Requests have the path of a `mining.submit` from its validity to the message to the bridge.
-- * Bridge (src/translator/proxy/bridge.rs): `handle_submit_shares`, which takes these messages to
--   the pool's channel through the limit of ShareLimit, and the handlers of the pool's prevhashes
--   and jobs, which make the notifies and activate merge-mining bindings.
-- * Router (src/router/mod.rs): the choice of the pool by the latencies that were measured.
-- * ProxyState (src/proxy_state.rs): the state of each part and the errors that stop the proxy.
-- * MinerTag (src/shared/miner_tag.rs): the tag of the miner in the coinbase script.
--
-- State is passed explicitly: a record for what the code keeps behind a mutex, a function from the
-- state to the state for each critical section. A poisoned mutex is not modelled. A hash map is an
-- association list, a hash set a list without repetition, a byte string a list of numbers, a `u64`
-- counter a number with the end of its range tested. Times are numbers of milliseconds (ShareLimit)
-- or microseconds (UpstreamRetarget), and `duration_since` stops at 0.
--
-- What a handler sends, reports or counts is the list of its effects, or a part of its result. An
-- error of the code is a false or an outcome, and a panic that the code can reach a none or an
-- outcome of its own. The random identifiers are a list of draws; a float is only copied.
--
-- Fuel: the loops of `insert_template` and `insert_job` get the length of the queue, and each round
-- takes an entry off it, so that the length is enough; `tree_height` gets 31 rounds, enough for a
-- count below 2 ^ 31; `retry_early` runs, as the code does, for the length that the queue has first.
--
-- Not modelled: sockets, tasks and HTTP; the start of the observer thread, whose outcome the calls
-- take as a Boolean; the floats of hashrates; the difficulty controller, the measurement of
-- latencies, the configuration, the upstream and the job declaration client. What other crates
-- compute is a parameter: the codec of transaction outputs and the limit of a B064K field in
-- MergeMining.Template, the record `Bitcoin` in MergeMining.Observer, the hex decoder in
-- MergeMining.Pair, the parsers of addresses in ProxyProtocol.Accept, `Hashing` in Sv1.Share,
-- `Sv1Api` in Downstream.Submit and `ChannelFactory` in Bridge.
pub mod Prelude
pub mod ShareLimit
pub mod UpstreamRetarget
pub mod MergeMining
pub mod ProxyProtocol
pub mod Sv1
pub mod RecentJobs
pub mod Downstream
pub mod Bridge
pub mod Router
pub mod ProxyState
pub mod MinerTag
