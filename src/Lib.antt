-- ===== src/Lib.antt =====
-- A model of ai-social-publisher, a service that turns news into Instagram posts: candidates are
-- scored by AI, approved over Telegram, captions are generated by AI, chosen and edited by an operator,
-- and published at once or at a set time.
--
-- Parts and files (paths are from the repository's root):
--
--   Status             internal/post/status.go: the statuses and the table of transitions.
--   Status.Graph       the table as a graph, and what is reachable in it.
--   Rows               the rows of the tables, from the struct types of internal/post, internal/news,
--                      internal/account, internal/outbox and internal/telegram.
--   Errors             the packages' error values, with errors.Is and Error().
--   Exec               the setting: the monad M of actions over an environment (Env) and a state (State),
--                      statements, transactions and loops. Exec.Rules and Exec.Chains have the rules for
--                      relations along an action, Exec.Atomic and Exec.Clock those for what an action leaves behind,
--                      Exec.Total those for what it achieves where the database answers.
--   Table, Store       a table as a list under a primary key; statements under the schema's CHECKs and
--                      foreign keys (migrations/).
--   Post               internal/post/post.go. Jobs: creation, lists and guarded status changes. Review:
--                      selection, captions, variants. Schedule: scheduled publishing. Logs: publish logs.
--                      The other children are about these: Advances and Progress (jobs move along the
--                      graph), Claims, Guards, Outcome, Retry, Due, Edits,
--                      Replace, Stored.
--   Outbox             internal/outbox/outbox.go, with Lease, Delivery and Progress about it.
--   Ai                 internal/ai/service.go, with Chain about it. Parse: internal/ai/parse.go, with Scores
--                      (what it lets through) and Documents (fenced documents) about it. Prompts and
--                      Clients: internal/ai/prompts.go, tgpt.go and ollama.go, with Storable about the
--                      chain of both.
--   Instagram          internal/instagram/instagram.go, with DryRun about it.
--   News, Account      internal/news/news.go and internal/account/account.go, with Account.Startup about
--                      SyncFromConfig.
--   Settings           internal/config/config.go: the types. Defaults: applyDefaults; Validate: validate;
--                      Startup: what both give the table of accounts.
--   Limiter            the limiters of internal/http/security.go and internal/admin/auth.go, with Table,
--                      Counters and Grants about them.
--   Http               internal/http/security.go and internal/http/handlers.go: what decodes and
--                      authenticates a request. Api: the handlers and routes; Flow, Access and Errors are
--                      about these.
--   Admin              internal/admin/auth.go: the session codec, with Session about it.
--   Approval           internal/approval/service.go: Context (helpers), Intake (candidates, scoring),
--                      Variants, Preview, Queue (selection, scheduling), Publish, Workers, Notices, Callback, Sync
--                      (the news sync);
--                      Decisions and Progress are about these.
--   Scheduler          internal/scheduler/scheduler.go: what a worker does at a tick, and runs of the
--                      whole system as lists of ticks and requests. Once, Runs and History are about runs.
--   Tests              concrete states on which the theorems are applied.
--
-- A Go function is the action of the same name in snake_case. It takes the environment and the state and
-- gives back a result (a value or an error) and a new state, also when it fails. Every question to the
-- environment - a statement sent to PostgreSQL, a reading of the clock, a request to a service - has a
-- number of its own, and the environment may answer each as it likes, with an error too. A transaction
-- whose body or commit fails restores the tables. A commit that reports an error is taken not to have happened.
--
-- Actions run one after another: what is interleaved is whole ticks and requests, and two workers that
-- claim one job are two claims in sequence, in environments and states of their own. The goroutines of
-- SyncNews run one after another; as events of a run, its items come in any order.
--
-- Parameters, since their code is not in the repository or is pure I/O: the database's faults, the clock,
-- the format of a time, the renderer, the storage, the Graph API, the providers, the news service and the
-- Telegram service; of Go's library, the JSON decoder, url.Parse and url.ParseRequestURI, time.Parse,
-- package net, HMAC-SHA256, hex and base64. They are arbitrary functions: their documented behaviour is
-- assumed nowhere, but of base64 in Admin.Session (Base64Laws).
--
-- Conventions. Ids, counts and times are natural numbers, a time the nanoseconds since the epoch; the
-- code's ids come from BIGSERIAL columns and start at 1, so a callback's negative id is read as 0, which
-- no row has. One sequence numbers the rows of all tables. now() is the time at the start of a
-- transaction. A text is a list of characters: a cut after a number of bytes (outbox, telegram) is a cut
-- after as many characters. Of the Graph API's JSON the fields that the code reads are kept. The text of
-- strconv's error is left out of the error of a bad payload, and the variation selector of the warning
-- sign out of a title. The request payload of a publish log and the raw payload of a candidate, which
-- nothing reads, are left out. The field `published` of the state is no part of the program: it records
-- for which jobs the Instagram publisher was called. The numbers of a configuration are integers (ℤ), and
-- so are those of a decoded score; %q writes a text between quotes. A panic in a request is an error like
-- any other, where the server's Recoverer answers with the same code.
--
-- Bounds: format_int has fuel for 20 digits, and an int64 has at most 19; deliver_rounds has the code's
-- own 20 rounds and preview_attempts its two attempts. No other definition has fuel.
--
-- Not modelled: the encoding of the AI clients' requests and the buffer of the command's output, the pages
-- and queries of internal/admin, cookies and headers, reading and decoding the configuration file,
-- internal/media, internal/storage, internal/database and cmd/server: I/O, glue, or work still to be done.
pub mod Common
pub mod Status
pub mod Rows
pub mod Errors
pub mod Exec
pub mod Table
pub mod Store
pub mod Post
pub mod Outbox
pub mod Ai
pub mod Instagram
pub mod Limiter
pub mod News
pub mod Settings
pub mod Account
pub mod Approval
pub mod Admin
pub mod Http
pub mod Scheduler
pub mod Tests
