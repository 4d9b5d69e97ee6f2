-- ===== src/Lib.antt =====
-- dummy-cd: a continuous delivery server for Kubernetes and the operator that feeds it.
--
-- The program. The operator (operator/controllers) watches two custom resources, repositories and
-- applications, and calls the server for each change. The server (server/pkg/server) keeps a
-- handler of repositories, each with its applications (server/pkg/instance). A ticker runs the
-- life cycle of every application: fetch from git, move to the newest revision that touches the
-- application's path, and deliver it by a delivery provider (server/pkg/provider), as a helm
-- release or as plain resources.
--
-- Which file models which part:
--   Go               errors, panics, mutexes, deferred calls and error returns of the Go code, as a
--                    state monad whose results are ok, err, panic and blocked
--   Slice            the removal of an item by the last one, and reads and writes at an index
--   Libs             the libraries that the code calls: records of their calls, one for files, helm,
--                    the cluster and git each
--   Util             server/pkg/util/utils.go
--   Helm             server/pkg/provider/helm.go: Setup has the types and constructors, Actions the
--                    methods; a method `getCurrentRelease` is `get_current_release`
--   Raw              server/pkg/provider/raw.go: Manifest, Provider and Cleanup; the goroutines of a
--                    delivery are in Provider.Together, those of a cleanup in Cleanup.Pool
--   Instance         server/pkg/instance: Remote and Repository (repository.go), Application and
--                    Lifecycle (application.go), Handler and Connection (handler.go), in
--                    Handler.Tick the goroutines of a tick, and in Handler.Cleanups the end of a
--                    cleanup
--   Pb, Server       server/pkg/pb (messages), server/pkg/server: server.go, and client.go in Client;
--                    Server.Main has the start of server/main.go
--   Operator         operator/api/v1alpha1, operator/controllers, and in Operator.Main the calls of
--                    operator/main.go
--   System           the operator and the server together: the operator's calls are the server's
--                    handlers
--   Tests            runs on concrete inputs, over a small world of libraries
--
-- How it is modelled. A method is a function from its state to a result and the state that it
-- leaves. A library is a record of functions on the world outside the program, an abstract type;
-- what is relied on of a library stands in a record of laws, GitLaws, HelmLaws, KubeLaws,
-- ClusterLaws, AnsweringLaws, WriteLaws or OperatorLaws, or in IsOwn, by which no library gives
-- back the server's sentinel NoErrAlreadyUpTodate. The long function RunLifeCycle is cut at its
-- early returns into update_repository, reconcile, pull_updates, reset_to and take_head, the last
-- of which is the code after the two branches meet. GitLaws sees a repository as the branch that
-- HEAD names and the commit of each reference, and says what the calls of go-git make of them.
--
-- A mutex is a flag. `for !m.TryLock() {}` on a mutex that is held gives `blocked`, since nothing
-- that runs in between is part of the call. A request runs from its start to its end. The cleanup
-- that a raw delivery starts is a step of its own, finish_cleanup, and its mutex is held from the
-- delivery until that step; in System it may happen at any time, or never. A nil pointer is
-- `none`, and a read through it is a panic. Indices, hashes and seconds are natural numbers; the
-- zero hash is 0. No definition has fuel: each loop is over a list, and Handle runs over a number
-- of ticks.
--
-- The goroutines of a tick are modelled twice. Handler runs each to its end before the loop goes
-- on, and is what the rest is composed with. Handler.Tick is a step relation in which the loop and
-- the goroutines take their steps in any order, with the counter of the wait group and the mutexes
-- of the applications. A mutex that is held at the start stays held or is freed, by the goroutine
-- of an earlier tick, before the loop comes to its application. A life cycle is one step, though
-- the life cycles of two goroutines run at once: no theorem of it is about what they do to the
-- world. A step that would bring the counter below zero, or read a nil pointer, ends the process.
--
-- The goroutines of a cleanup are modelled twice. Raw.Cleanup runs each to its end before the loop
-- goes on, which is one of their orders, and is what the rest is composed with.
-- Raw.Cleanup.Pool is a step relation in which the loop and the goroutines take their steps in any
-- order, with the channel of each version, and in which the loop returns without waiting.
--
-- So are those of a raw delivery. Raw.Provider runs them one after another; in
-- Raw.Provider.Together each makes its Get and then its Create or Update, and the calls of all
-- come in any order. Those of a deletion run one after another.
--
-- In System a call of the operator is answered by the server's handler, in one step. gRPC is a
-- parameter: what it makes of an error, and its error where no server answers. A handler that
-- panics ends the server's process and loses its memory; a start of the server makes it anew. The
-- resources that the API server stores are changed by the operator and by anyone else.
--
-- Not modelled: log output, contexts and cancellation, the interleaving of the calls of two
-- life cycles or of two uninstalls, and of requests, the files in a worktree, flags, the gRPC
-- transport, and generated code.
pub mod Base
pub mod Go
pub mod Slice
pub mod Libs
pub mod Util
pub mod Helm
pub mod Raw
pub mod Instance
pub mod Pb
pub mod Server
pub mod Operator
pub mod System
mod Tests
