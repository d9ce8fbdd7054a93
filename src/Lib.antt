-- ===== src/Lib.antt =====
-- The order path of the foreign exchange platform: from the intent of a strategy through the risk
-- checks to routed orders, fills, positions and the account; and its analysis of market states over
-- several timeframes.
--
-- Parts, each with its source:
--   * Domain: forex_platform/core/domain.py. Pair, Lots, Pips, Orders and Position hold the classes of
--     those names and their methods; Kinds holds the enumerations.
--   * Sessions: forex_platform/core/sessions.py, the calendar of the market in UTC.
--   * Risk/KillSwitch: forex_platform/risk_engine/kill_switches.py.
--   * Risk/Breaker: forex_platform/risk_engine/circuit_breakers.py.
--   * Risk/Quotes and Risk/Firewall: forex_platform/risk_engine/firewall.py, what it reads and answers,
--     and its tiers. `run_tiers` is `_run_tiers`, and each gate is one of its tiers.
--   * Risk/Margin: forex_platform/risk_engine/margin_credit.py, the margin and the credit of an order.
--   * Risk/Integrated: forex_platform/risk_engine/integrated/integrated_firewall.py, the firewall with
--     the checks that are made after those of the base firewall.
--   * Portfolio/Rates and Portfolio/Exposure: forex_platform/portfolio_engine/exposure_matrix.py.
--   * Portfolio/Governor and Portfolio/Downsize: forex_platform/portfolio_engine/allocator.py;
--     `search_units` is the loop of `_attempt_downsize`.
--   * Orders/Lifecycle: forex_platform/order_management/state_machine.py.
--   * Orders/Router: forex_platform/order_management/router.py; `slice_sizes` is the loop of
--     `slice_intent`.
--   * Orders/Oms: forex_platform/order_management/oms.py. State holds its attributes, Submission,
--     Filling and Valuation its methods, and Calls the sequences of calls.
--   * Domain/Instruments: forex_platform/core/instruments.py, the registry of tradable pairs.
--   * Portfolio/Targets: forex_platform/portfolio_engine/target_allocator.py, from target positions to
--     order intents, and the regimes of forex_platform/portfolio_engine/regime.py.
--   * Reconciliation: forex_platform/reconciliation/reconciler.py. `report_of` compares the ledgers,
--     `enforce` freezes the platform, and `run_loop` is `_run_loop` as a sequence of passes.
--   * Production: forex_platform/production/execution.py. Kernel is RiskKernel, and Service is
--     ProductionExecutionService: its events are what it stores, sends and audits, in their order.
--     Allocation holds its `submit_targets`, and Positions its `reconcile`.
--   * Production/LiveGate: LiveTradingGate of forex_platform/production/security.py, and the guard of
--     live capital of forex_platform/broker_adapters/base.py.
--   * Production/Brokers: forex_platform/production/brokers.py, the registry of accounts, which sends an
--     order to the first of its candidates that accepts it, and the sending of the remote adapter.
--   * Costs: forex_platform/costs/, the commissions, swaps and spreads, which read the calendar of the
--     sessions.
--   * Fractal: forex_platform/fractal_engine/, the analysis of a market over timeframes. Ladder is
--     timeframes.py, States the state of a timeframe of state_engine.py, Requirements is
--     requirements.py, Timeline and Graph are state_graph.py, Consistency is consistency.py and
--     Hypotheses is hypothesis_engine.py. Structure and Processor are the online processor of
--     state_engine.py, `push` in two parts, and Streaming its engine, which groups source bars into
--     candles. Its instants are counts of microseconds in UTC.
--   * Prelude, Decimal and Time: the texts, dictionaries, exceptions, decimals and times of Python that
--     these use.
--   * Tests: concrete values and one run for each result.
--
-- How they interact: the order management system owns a firewall, which reads the kill switch and
-- brings the circuit breaker up to date. An approved intent goes to the router, whose orders the
-- system shares: both hold places in one store of orders. Each order has a state machine. A machine
-- that enters UNKNOWN hands an alert to the system, which arms the kill switch of the pair.
-- The execution service puts the risk kernel, with its own limits, before the order management system,
-- and hands the orders of an approved intent to the brokers; the allocator makes intents from target
-- positions. The reconciler compares the positions of the system with those of a broker, and arms the
-- global kill switch, which the firewall reads, when they differ.
-- The registry of brokers is what the execution service sends to. The integrated firewall puts its
-- checks behind the base firewall.
-- In the fractal engine, source bars are grouped into the candles of each timeframe, and each closed
-- candle gives the next state of its processor. The histories of two neighbouring timeframes give
-- the lifecycle of what the coarser one requires of the finer; all histories give the views of a set
-- of three timeframes, from which the consistency of neighbouring sets and the hypotheses are
-- derived. It places no orders.
--
-- A method is a function of the state that returns a result, an error value for an exception, with the
-- state that it leaves. Dictionaries are lists of entries in the order of insertion. A decimal is an
-- integer coefficient with a number of places, rounded to 28 digits half-even as Python's default
-- context does. A time is a count of microseconds with an offset.
--
-- Fuel: the loop of `_attempt_downsize` gets one round for each unit of the intent, and the loop of
-- `slice_intent` one more than the units; each round makes the range or the remainder smaller.
--
-- Parameters: the digest that makes client order ids, and the rounded median of spreads, which the
-- source computes in binary floating point. The brokers are an interface of the execution service,
-- `Gateway`, with a state of its own, which the registry of brokers fills (`registry_gateway`). The
-- adapters that the registry calls are an interface in turn, `Adapters`, with the remote adapter's
-- request to its agent a parameter; so are the tracker of zones, `ZoneTracker`, the news service, which says whether a pair is blacked out at a time, the
-- clock, the market telemetry and the positions that a broker reports.
--
-- Not modelled: exponents, infinities and NaN of decimals, inputs given as float, upper case beyond
-- ASCII, the limits of Python's dates, the texts of reasons, the zones of the
-- fractal engine's states and its batch aggregation, the references of its state graph, its summaries and research, and the other parts of the platform
-- (adapters of brokers, storage, servers, market data, strategies, research), which do I/O or compute
-- in floating point, or are not on this path; threads and metrics.
pub mod Prelude
pub mod Decimal
pub mod Time
pub mod Domain
pub mod Sessions
pub mod Portfolio
pub mod Risk
pub mod Orders
pub mod Tests
pub mod Reconciliation
pub mod Production
pub mod Costs
pub mod Fractal
