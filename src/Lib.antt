-- ===== src/Lib.antt =====
-- A verification library for the Go authentication template: registration, login by password or by a
-- mailed code, refresh tokens that rotate, and password reset by a mailed code.
--
-- The parts of the program, from the tables up, and the files that model them:
--
--   internal/domain, configs/environment.go        Domain, Errors (error.go)
--   internal/infra/database/sqlc, schema           Database, with a child module per table
--   internal/repository                            Repository, with a child module per file
--   pkg/secure                                     Secure, Secure.Format, Secure.Hashes
--   internal/service, internal/infra/email         Service, with a child module per file
--   configs/setup.go                               Configs, Configs.Atoi (strconv)
--   main.go, internal/app, database/postgres.go    App, Migration (migration/main.go)
--   internal/web                                   Web: Http, Payload, Cookie, Errors (client_errors
--                                                  and handler/utils.go), Handler, Middleware, Server,
--                                                  Mux (http.ServeMux)
--   the structs, interfaces and constructors       Objects: Queries (sqlc/querier.go), Sqlc (the
--   of these, and setupDependencies of             repositories), UnitOfWork, Email, Service, Web
--   internal/app/app.go                            and Dependencies (app.go, routes.go)
--
-- Base has the tests, the list operations and the integers that they share. Tests runs the code on a
-- small fixture. Proofs are in the modules below these, named for what they prove: Laws (what each
-- operation does), Sessions and Attempts (the tables of refresh tokens and of codes), Rotation,
-- Reset, Send, Code, Register, Login, OtpLogin, LoggedOut, Ended, Guessing and Session (the flows),
-- Overtaken (calls that overlap), Ports and Url (the settings), Recovery, Serves, RoundTrip and
-- Profile (what a token is good for), Routes with Paths (which handler a request runs), Disclosure
-- and Guarded (who is shown a profile), Order (of the middlewares), Start (of the process), Invariants,
-- Integrity, Preserved, Dead and Hashed (what every operation keeps of the tables; Preserved is the
-- interface that a property of the tables fills, statement by statement), Choices and Served (what
-- the routes keep over many requests), and Agreement (of Objects and the rest).
--
-- State and errors. A method of Go is an action, a function from a World to an outcome and a World.
-- The World has the four tables, the mails that were sent, the number of calls of the outside so
-- far, and the value of NOW() in a transaction. An outcome is a value, a non-nil error or a panic;
-- the first error ends a chain of calls. Errors are trees of what they wrap, which errors.Is and
-- errors.As search. An SQL statement is a function on the tables, with the constraints of the
-- schema; the unit of work runs its function on the tables, and puts them back where it does not
-- commit. One operation runs at a time, but for exec_around of Repository.Transaction.Overlap: a
-- transaction that another operation overtakes between its begin and its first statement. Other
-- overlaps are not modelled. Served of Web.Mux is the relation of the worlds before and after some
-- requests.
--
-- The outside. What the repository only calls is the parameter Env of World: UUIDs, the clocks of
-- the process and of the database server, random numbers, bcrypt, HMAC-SHA256, base64, JWT parsing
-- and signing, the mail template, the mail service, and the faults of the database, each of which
-- may answer otherwise at each call. Decoders and validators of request bodies are the parameter
-- Codecs of Web.Payload. A UUID is a number, a time is a number of nanoseconds since the zero time
-- and a duration is not negative. The TIMESTAMPTZ columns keep microseconds, and the tables here all
-- of a time: a comparison with NOW() may differ where the two are within a microsecond. The attempts of a code are integers, cut to 16 bits where the
-- repository converts them. The settings come from the parameter System of Configs: what godotenv
-- and go-env answer, and each answer of net.Listen; the start of the process from the parameter Host
-- of App: sql.Open, Ping and ListenAndServe, and Goose of App.Migration. The decimal printer in
-- Secure.Format has as fuel one more than the number that it prints, and so more than its digits;
-- the search for a port has the number of ports up to 65535, so that it ends as the loop does.
--
-- Objects. The methods are written twice. In Repository, Service and Web a method takes all the
-- settings and the outside, and calls the next one directly; most proofs are on these. In Objects it
-- takes its struct, whose fields are the interfaces and the settings that its constructor was given,
-- as in the source; App serves the routes of this graph, and Agreement joins the two. An interface
-- is a record of functions. The connection is not a value: the statements of a transaction are those
-- of the connection, run on the transaction's view of the tables; WithTx of the queries is the same
-- record, so that a repository which the source left on the connection would not be told apart.
--
-- Not modelled: the answers that http.ServeMux gives by itself (redirects, 404 and 405), the SQL of
-- the migrations, log lines, contexts and cancellation, and the mocks of the tests.
pub mod Base
pub mod Errors
pub mod Configs
pub mod App
pub mod Objects
pub mod Domain
pub mod Database
pub mod World
pub mod Repository
pub mod Secure
pub mod Service
pub mod Web
mod Tests
