-- ===== src/Lib.antt =====
-- Verification of the English learning backend: the account service, the synchronisation of a
-- client with it, the publication of content from the CMS, the public API over it, the
-- recommendations of the home page, and the rate limiter.
--
-- The program is a Go server over PostgreSQL. A client signs in, reads published content, and sends
-- what its user did (bookmarks, progress, grammar attempts, a word list with reviews) to the account
-- service, which writes a row and an event in one transaction. A client asks /me/sync for the
-- events behind its cursor, and /me/home for a page made of the published rows and its own rows. The
-- CMS sends a document with its audio to the publisher, which puts the audio into the object store and
-- writes the content, its taxonomy, its words, its asset and an event in one transaction; the public
-- API reads these rows.
--
-- Base      numbers, lists, results and a stable sort, shared by all parts.
-- Text      a Go string as its code points, an invalid byte as a number from 0x110000 on; strings and
--           utf8 functions. The tables of the package unicode are the record `Unicode`, an argument of
--           every definition that uses them, with facts of the standard as laws; `Text.Ascii` is
--           an instance.
-- Database  a transaction of pgx as a function on the tables of the transaction. The environment
--           gives a list of faults, one for each round trip to the server: lost on the way, or carried out
--           with the reply lost. The list may be anything, and past its end nothing fails. A failed
--           statement aborts the transaction, as PostgreSQL does; Begin, Commit and the deferred Rollback
--           are `transact`.
-- Identity  internal/identity and internal/repository/dbgen/identity.sql.go.
--   Schema       rows of models.go. An id is a number; uuid.Nil is 0. A time of a table is in
--                microseconds and a time of Go in nanoseconds, since the same origin.
--   Queries, Learning   one function for each SQL statement, with the constraints of db/migrations.
--                PostgreSQL refuses a text that is not UTF-8 or has the character U+0000 (`storable`).
--   Input        the request types and validateGrammarAttempt, validateVocabularyReview,
--                NormalizeVocabularyWord. A count is an integer; the int32 of Go bounds it.
--   Service, Vocabulary   SetBookmark, SetProgress, SetGrammarAttempt, SetVocabulary,
--                SetVocabularyReview, DeleteVocabulary.
--   Login        createLogin with the migration of what a device has collected, Login from the verified
--                subject on, LoginDevelopment, Authenticate, Logout. SHA-256 and base64 are arguments
--                (`Crypto`), and so are the random bytes.
--   Commands     the six writes as one type; `perform` runs the service's method and `effect` is the
--                abstract specification: the same writes without transactions and faults.
--   Sync         the handler of GET /me/sync in internal/httpapi/identity.go, from the decoded cursor
--                on; `drain` is a client that follows it, on fuel: one page for each event, and one more,
--                is enough.
-- Home      personalizedHomeSections in internal/httpapi/recommendations.go. The order in which Go
--           iterates over a map is an argument. The quotient of two int32 as float64 is below 0.8
--           exactly if the cross products are, so no float is modelled. The columns that are only
--           copied into the response are left out.
-- Publish   internal/publishing/service.go.
--   Document, Options, Grammar, Slug   validate, validGrammarPoint, slugify and safeSegment.
--   Statements, Assets   one function for each statement of the publisher, with the constraints of
--                db/migrations; ids and sequences are drawn from a counter that is kept with the tables.
--   Taxonomy     linkTaxonomy, linkCategory, upsertFeaturedDictionary, title.
--   Service, Request   Publish: the body of its transaction, and what stands around it. The object
--                store, json.Marshal, time.Parse, the digest of the bytes that Put has read, and what
--                other sessions commit between the lookup and the transaction are arguments
--                (`Setting`, `Marshal`, `Incoming`).
--   Effect, Goes the abstract specification: what the transaction does when nothing fails, and the
--                room in the tables under which nothing does.
--   Endpoint     POST /internal/v1/publications of internal/httpapi/publishing.go. A part of the body
--                is its bytes and whether reading them fails; the digests and json.Unmarshal are
--                arguments.
-- Catalogue the content tables and the public API.
--   Schema       rows of models.go. A jsonb column is the text that it is sent as.
--   Codec        base64, time, uuid, strconv and json, with the laws that the code relies on, and the
--                collation of the database, as arguments.
--   Queries, Released, Lists   the queries of internal/repository/dbgen/public.sql.go. A query with
--                ORDER BY sorts stably, from the order of the rows in the table. The text search of
--                PostgreSQL is an argument.
--   Contents, Changes, Pages, Media, Goals   the handlers of internal/httpapi/public.go. A query that
--                only reads is a value, which a fault turns into the handler's error. `walk` and
--                `drain` are clients that follow the cursors, on fuel: one request more than there
--                are rows is enough. proxyMedia follows redirects on fuel, of which five is enough.
--                The pattern of the legacy glossary is an argument, as the package regexp reads it.
--   Dictionary   GET /dictionary/{word} of internal/httpapi/dictionary.go with the queries of
--                internal/repository/dbgen/dictionary.sql.go.
-- Http      the middleware of internal/httpapi/ratelimit.go, from the host on. The limiter of
--           golang.org/x/time/rate is an argument; that it is full again after five minutes is a
--           hypothesis.
-- Retell    the upload of a recording in internal/httpapi/retell.go, from the parsed headers on; in
--           Review normalizeAndValidate with the statement of a review, in Requests the handlers of
--           the list, the review, the download and the removal. In Account DELETE /me of
--           internal/httpapi/identity.go, which removes the recordings and then the user. The object
--           store is an argument with the laws of a store of objects by key.
-- Tests     runs on concrete data.
--
-- Statements of one transaction are one step on the tables: transactions are taken one after
-- another, so nothing here speaks of two that overlap. Not modelled: the router and the JSON of the
-- handlers, the verification of Apple's tokens, ingestion, the import of WordNet, the client of the
-- object store, and the commands under cmd.
pub mod Base
pub mod Catalogue
pub mod Text
pub mod Database
pub mod Identity
pub mod Tests
pub mod Home
pub mod Publish
pub mod Http
pub mod Retell
