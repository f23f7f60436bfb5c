-- ===== src/Lib.antt =====
-- The parts of jamesbrain that decide what is true when, and that send messages to its engine.
--
-- The knowledge engine (pke/src/pke) keeps facts with uncertain times, corrections of them and
-- relations between entities; the product (pke/src/pke/product) keeps conversations and sends
-- messages to the engine under idempotency keys. A fact's time is a `TemporalKnowledge`;
-- `range_membership` asks whether it is in a range, `sort_key` orders facts, and the resolvers
-- of states and relations choose by that order.
--
-- Common: Boolean tests, lists, and the coding of texts. A Python `str` that is only stored,
-- compared, ordered or tested for emptiness is a number, 0 the empty text.
-- Temporal.Instant: aware datetimes as a wall clock in microseconds and an offset, compared by
-- their instants (Python compares wall clocks where two share one `tzinfo` object); the zone
-- database is the parameter `ZoneData`.
-- Temporal.Value, Temporal.Knowledge: pke/src/pke/domain/value_objects.py and
-- temporal_knowledge.py. A `ValueError` of a validator is `none`.
-- Temporal.Membership: pke/src/pke/temporal/membership.py, function by function under its names
-- without the leading underscore; `TimeRange` is of pke/src/pke/query/spec.py. Coarse, Validity
-- and Windows have the theorems.
-- Ranking, States: the ranking that the resolvers share and pke/src/pke/query/state_resolver.py,
-- with States.Dimensions for all dimensions at once, as a `dict` in the order of the states.
-- Relations: pke/src/pke/domain/relations.py and relation_lifecycle.py; Relations.Metadata is
-- pke/src/pke/ontology/relation_metadata.py, with the table of learned relations as an argument;
-- Relations.Query is pke/src/pke/query/relation_resolver.py.
-- Corrections: pke/src/pke/domain/corrections.py and pke/src/pke/query/effectiveness.py.
-- Product.World: the tables, the knowledge and the `Environment`: new ids, clock readings and
-- whether a statement on the database raises, each by the number of the call; the SHA-256 of a
-- request and two functions on texts; the engine gateway with what the presenter makes of its
-- turn. `Action` is a method: its result or its exception, and the world after it, since what
-- was written stays written.
-- Product.Idempotency, Product.Store: the tables of pke/src/pke/product/conversation/store.py. A
-- statement is one transaction: it raises and writes nothing, or it writes.
-- Product.Recovery: `begin_or_replay` of pke/src/pke/product/conversation/recovery.py. A stored
-- time is what `fromisoformat` makes of it.
-- Product.Orchestrator: `send_message` of pke/src/pke/product/conversation/orchestrator.py and
-- what it calls, the `try` with its handlers written by `catch`; Durable, Replay, Resend,
-- Completes and Awaiting have the theorems.
-- Ontology: pke/src/pke/domain/ontology.py and pke/src/pke/ontology/registry.py. A registry is
-- its three dicts, by Ontology.Dict, and whether the core is frozen; an operation returns or
-- raises, and leaves the registry after it. Ontology.Registry.Put is the list of ways in which a
-- put ends; Keeps, Visible, Indexed, Seeds and Ancestry.Reaches have the theorems.
-- Measurements: pke/src/pke/domain/measurements.py and
-- pke/src/pke/query/measurement_resolver.py, the latter in Resolver, Modes and Query; Groups,
-- Partition, Latest, Proposition, Pool and Shown have the theorems. A Decimal is the code of its
-- value.
-- Interpretation: pke/src/pke/interpretation/retry.py with the exceptions of
-- pke/src/pke/llm/errors.py, and the loop of `interpret` of
-- pke/src/pke/interpretation/deepseek_interpreter.py. What an attempt brings, response, parse or
-- an exception that no handler is for, is a function of the messages sent and the number of the
-- attempt. The text of an exception is the list of its characters, and `str.lower` a parameter.
-- Outcome, Final and Counts have the theorems.
-- Discourse: the state of pke/src/pke/interpretation/discourse.py and its updates after a
-- question (Ask) and after a statement (Ingest) by pke/src/pke/application/discourse.py, on what
-- they read of the answer, or of the result and the interpretation. A salience is in
-- thousandths; `faded`, the rounding of a salience after a turn, is a parameter, and so are
-- `strip` with `casefold` or `lower`. Bounds, Allowed, Focus and Written have the theorems.
-- The modules named Examples run the definitions at concrete values.
--
-- Every definition is total. Two loops run on a bound that the code has itself: the 32 rounds of
-- `is_descendant_of`, and the attempts of `interpret`, at most two. All others run over lists.
--
-- Not modelled: the parse and the meaning of what the model answers, the language model clients,
-- the SQLite stores of the knowledge, the HTTP routes, authentication, the answers to
-- clarifications, the completion of a pending query by the discourse, the other queries and
-- resolvers of the engine, the delay between attempts, and core/src/jamescore; logging and
-- confidences; the messages of exceptions.
pub mod Common
pub mod Temporal
pub mod Ranking
pub mod Relations
pub mod States
pub mod Corrections
pub mod Product
pub mod Ontology
pub mod Measurements
pub mod Interpretation
pub mod Discourse
