-- ===== src/Lib.antt =====
-- A model of parts of so_5_extra (dev/so_5_extra), a library of extensions for SObjectizer, and
-- what it is proved to do.
--
-- SObjectizer is an actor framework that is not part of this repository. A message box (mbox)
-- takes `subscribe_event_handler`, `unsubscribe_event_handler`, `do_deliver_message`,
-- `set_delivery_filter` and `drop_delivery_filter`; it delivers by `push_event` of the sinks. Most
-- components of so_5_extra are mboxes of their own that share only these words; broadcast mboxes and
-- proxies stand in front of other mboxes, and Mboxes/Network puts them together.
--
-- How a method is written. The state of an object is a record, and a method is a function from the
-- arguments and the state to the new state, to what the method sends (a list of pushes, of
-- signals, or of calls to other mboxes) and to the exception, as a `Result`. A method that is
-- `noexcept` and calls code that throws is a `Noexcept`, whose `terminates` stands for
-- `std::terminate`. A lock makes a method one step; where the code works without one, its steps
-- are taken apart (Senders, Race). Message types and sinks are arbitrary types with an order,
-- those of `std::type_index` and of `special_sink_ptr_compare`. `push_event`, and a call passed on
-- to another mbox, return, but in Mboxes/Broadcast, Mboxes/Proxy and MsgHierarchy/Deliver, where what
-- the other mbox does, to return or to throw, is a parameter.
--
-- Prelude: names, Boolean tests, lists. Std: `std::map` as a sorted list of pairs (Std/Map, with
-- counts in Std/Map/Count and predicates in Std/Map/Every), and a sorted `std::vector` with
-- `std::lower_bound` (Std/SortedVector). So5: SObjectizer's words. So5/Errors: the error codes of
-- dev/so_5_extra/error_ranges.hpp. So5/Subscription: the operations of SObjectizer's block of a
-- subscription, with the laws that the theorems rely on and an implementation that has them.
--
-- Mboxes/RoundRobin: dev/so_5_extra/mboxes/round_robin.hpp. `Container` is
-- `subscriber_container_t`, `Mbox` is `data_t`. Rotation, Subscribers: the order of turns.
-- Invariant, Turns, Absence, Erasure: theorems.
-- Mboxes/InflightLimit: dev/so_5_extra/mboxes/inflight_limit.hpp. `World` is the shared counter
-- with the envelopes that are alive. Limit: one delivery as a whole, for any unsigned limit.
-- Subscriptions: what the underlying mbox is told of them. Senders: any number of deliveries at once,
-- as a step relation, for a limit and a number of threads whose sum is below 2 ^ 32, the size of the
-- counter.
-- Mboxes/FirstLast: dev/so_5_extra/mboxes/first_last_subscriber_notification.hpp. Calls: runs.
-- Counter, Notifications: the signals; the histories are shorter than 2 ^ 64 calls, the size of
-- the counter, and keep to what SObjectizer keeps to: a sink subscribes if it has no subscription
-- and unsubscribes if it has one. SingleConsumer: the other case of the mbox's type.
-- Mboxes/Retained: dev/so_5_extra/mboxes/retained_msg.hpp. History: what a history of calls says.
-- Cells, Refinement: that the table has it. Late, Deliveries: what a sink gets.
-- Mboxes/Composite: dev/so_5_extra/mboxes/composite.hpp, the builder and the mbox. Routing: where
-- calls go.
-- Mboxes/Broadcast: dev/so_5_extra/mboxes/broadcast.hpp. Mboxes/Proxy:
-- dev/so_5_extra/mboxes/proxy.hpp, `simple_t`. Mboxes/Network: such mboxes over one another, without
-- cycles.
-- Mboxes/Collecting: dev/so_5_extra/mboxes/collecting_mbox.hpp. `BunchBuilder` is what the mbox
-- asks of a builder and `IsBunchBuilder` what a builder has to do; Bunches: the mbox over any such
-- builder; Messages and Signals: the two builders. The number of messages is positive: over zero
-- messages the first store is out of range.
-- Mchains/FixedSize: dev/so_5_extra/mchains/fixed_size.hpp, the ring of demands. Fifo: it is a
-- bounded queue.
-- AsyncOp/TimeLimited: dev/so_5_extra/async_op/time_limited.hpp, over the owner's subscriptions as
-- a parameter. Rollback: the activation. Settled: the end.
-- AsyncOp/TimeUnlimited: dev/so_5_extra/async_op/time_unlimited.hpp, one operation with its two
-- points. Ends: the end. Leak: an activation that fails. AsyncOp/Subscriptions: the owner's
-- subscriptions and the loops over them, for both kinds of operations.
-- Sync: dev/so_5_extra/sync/pub.hpp. Sync/ReplyChains: what it uses of SObjectizer's chains; Replies:
-- what becomes of a request. That a reply comes before the waiting ends is in the list of events.
-- Shutdowner: dev/so_5_extra/shutdowner/shutdowner.hpp, `notify_mbox_t`. Calls: runs of whole
-- calls. Completion, Leaving: the status machine. Order: the vector. Race: a delivery that is overtaken. The theorem
-- on leaving sinks takes a vector with no sink twice, as SObjectizer subscribes a sink once for a
-- message type.
-- MsgHierarchy: dev/so_5_extra/msg_hierarchy/pub.hpp. Upcaster: the mixins of a message class, with
-- the lookup of the name `so_make_upcaster` in it; Lineage: the types that a message is delivered by.
-- Controller: the two controllers of a demuxer; Requests, Stable: the mboxes that they keep. Deliver:
-- how they deliver, to mboxes that may throw; Climb: the loop over the types; Receivers, History: who
-- receives a message. Demuxer: `demuxer_t`, `consumer_t` and the sending mboxes, with the controllers
-- in a store; Consumers: ids and moves.
-- EnvelopedMsg: dev/so_5_extra/enveloped_msg, over the clock and the receiver as parameters.
-- Deadlines: what becomes of a message in envelopes.
-- RevocableMsg: dev/so_5_extra/revocable_msg/pub.hpp, with the store of the envelopes. Revocation,
-- Assignment: theorems on handlers and on ids.
-- RevocableTimer: dev/so_5_extra/revocable_timer/pub.hpp, over these envelopes, with SObjectizer's
-- timers as a parameter. Released: its theorem.
-- Disp: dev/so_5_extra/disp, the counters of the dispatchers over Asio and the demands that wait in
-- the `io_context`, each of which may come next. Disp/AsioThreadPool:
-- dev/so_5_extra/disp/asio_thread_pool/pub.hpp. Reports: the numbers that it reports; Launch: its
-- threads. Disp/AsioOneThread: dev/so_5_extra/disp/asio_one_thread/pub.hpp.
-- AsioEnv/Timers: dev/so_5_extra/env_infrastructures/asio/impl/common.hpp, with `schedule_timer` and
-- `single_timer` of simple_not_mtsafe.hpp beside it. Release,
-- Late: what is delivered after a release.
-- AsioEnv/Shutdown: the shutdown of the environment in simple_not_mtsafe.hpp, over SObjectizer's coops
-- as a parameter. Begins, Progress: its theorem. AsioEnv/EventQueue: its event queue. Waiting: the times of
-- waiting that it counts.
--
-- Recursion is on lists, but for the loop over the types of a message (MsgHierarchy/Deliver). Its
-- fuel is the number of these types; without fuel it ends as `out_of_fuel`, which a theorem on
-- `do_deliver_message` excludes.
--
-- Not modelled: the trace messages and `query_name`; `layer_t` and the factories that only choose
-- template arguments; dev/so_5_extra/mboxes/unique_subscribers.hpp, which only calls SObjectizer; the
-- parameters of the dispatchers, and what of them and of the environments over Asio only calls Asio;
-- the tests and the samples.
pub mod Prelude
pub mod Std
pub mod So5
pub mod Mboxes
pub mod Mchains
pub mod Shutdowner
pub mod AsyncOp
pub mod RevocableMsg
pub mod MsgHierarchy
pub mod Sync
pub mod EnvelopedMsg
pub mod RevocableTimer
pub mod Disp
pub mod AsioEnv
