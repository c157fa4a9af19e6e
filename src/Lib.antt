-- ===== src/Lib.antt =====
-- ChannelAgent: an assistant that people reach over telegram, email or matrix. A message is
-- normalized by an adapter of its channel, authorized against the database, answered by one turn of a
-- model, and delivered; every step leaves an entry in the audit trail. Administrators let senders in,
-- configure agents and delete people, over a console or an HTTP API that call the same functions.
--
-- The parts, and the files that model them:
--   Model      app/db/models.py, app/db/types.py: the rows; a table is a list of rows in the order of
--              ids, and the database a record of tables.
--   Env        what comes from outside the repository: new ids, `str.lower`, `repr`, SHA-256, the clock.
--   Exec       functions that change a state and may raise: what was written before a raise stays
--              written in the session, and the error classes of app/admin/service.py.
--   Auth       app/security/hashing.py, app/security/auth.py: authorize, grant and revoke.
--   Admin      app/admin/service.py and app/admin/routing.py: events, access requests, agents and their
--              settings, users, deletion, the audit trail, the rules that choose a model, and the
--              registry of jobs (app/admin/jobs.py).
--   Files      app/admin/rekey.py, rekey_guided.py, restore.py and models.py, app/db/backup.py: the
--              rotation of the key (Rekey, and Rekey.Guided around the .env file), a backup put in
--              place (Restore), the copies before a migration (Backups), model files and their
--              download (Models). Fernet, SQLite, SHA256, the network and the ends of a commit are
--              parameters.
--   Channels   app/channels/dispatch.py (the command /agent in Command), notify.py, schema.py. The
--              world of a dispatch has the session (`work`), what was committed (`stored`) and the
--              effects so far: turns of the model, replies and notices. The turn itself is a
--              parameter, since it is the model's. Email is app/channels/email.py: the mailbox is a
--              list of messages, and the mail server and the dispatch are parameters.
--   Tools      app/tools.py: the loop of requests and tool calls in one turn. The engine and the
--              tools are parameters.
--   Api        app/api/deps.py, app/api/scopes.py and app/api/protect.py: what stands in front of the
--              routes. In Protect the application is the tree of what it reads, sends and ends with.
--   Config     app/settings_rules.py: the shapes of the settings (Rules), and the .env file that is read
--              and written (EnvFile). A file is its text in code points.
--   Outbound   app/security/outbound.py: the guard on requests. Python's URL and address libraries and
--              the resolver of names are parameters.
--   Mcp        app/mcp/: the names of tools, one server's connection with its waits, the known
--              servers, and the executor of a turn's calls; app/admin/mcp.py: the servers that
--              administrators declare (Registry). What the SDK does at a call is an argument of
--              it, and times are milliseconds.
--   Turn       app/graph.py: the counts of tokens, the window of the history and the summary of the rest
--              (Node), and a turn of one thread (Run). LangChain's trimming, LangGraph's store (GraphLaws), the
--              engine and the loop of tools are parameters.
--   Health     app/health.py: the expected components, the heartbeat and its check.
--   Prelude    the names that all parts share: lists, tests, tables as lists, texts.
--   Examples   runs on concrete data.
--
-- How the code corresponds: a function of the source is a function of the same name, without a
-- leading underscore, in the monad of Exec. A query is `select` on a table, a change of a loaded
-- object is `update` on its row. `scalar_one_or_none` raises on two rows. SQLite gives a new row an id
-- larger than all others (EnvLaws). LangGraph's store of conversations is a parameter (Saver, with the
-- laws of its documentation in SaverLaws). A JSON value of a request is a `Detail`. Times are natural
-- numbers.
--
-- Bounds: every loop is structural recursion, but for `decimal`, whose fuel is the number and one
-- more, and a number has fewer digits than that. The rounds of Tools count down from four, as the
-- source's range does; the hops of Fetch count down from six.
--
-- Not modelled: concurrency between requests (each operation runs in one session), foreign keys and
-- unique constraints as errors of the database (uniqueness is stated as an invariant where it is
-- needed), messages of errors, columns that no modelled function reads, encryption at rest but for
-- the marker of a text that cannot be decrypted, the adapters of other channels than email, the
-- loop of polls, errors after a restored database is in place, the listing of files, the console,
-- the opening of the conversations' store, and the cancellation of a call of a tool while it runs.
pub mod Prelude
pub mod Model
pub mod Api
pub mod Tools
pub mod Env
pub mod Exec
pub mod Auth
pub mod Admin
pub mod Channels
pub mod Config
pub mod Outbound
pub mod Turn
pub mod Files
pub mod Health
pub mod Mcp
pub mod Examples
