-- ===== src/Lib.antt =====
-- The AWS IAM authenticator for Kubernetes: the part that turns a token into a Kubernetes user. A
-- client sends a token that carries a pre-signed URL of STS; the webhook verifies it, searches its
-- backends for a mapping of the caller, renders the templates of the mapping and answers with a
-- user or a refusal.
--
-- Parts, with the files that model them:
--
-- Arn (pkg/arn/arn.go): `canonicalize` is Canonicalize, `check_partition` is checkPartition.
-- Arn/Format holds what is used of the AWS SDK, and the documented format of a resource name as a
-- hypothesis; Arn/Example has a parser that meets it.
--
-- Config (pkg/config): the records of mappings and of the configuration. Config/Paths has the
-- addresses of config.go and the paths of certs.go, with what they use of net, net/url, strconv
-- and path/filepath; Config/Files has certs.go, and Config/Kubeconfig kubeconfig.go with
-- CreateKubeconfig and GenerateFiles. The file system is a value that each function returns
-- changed, one entry for each path as it is written; the record System has its faults, and the
-- record Crypto what is used of cryptography and encodings.
--
-- Httputil (pkg/httputil/client.go): the rate limited client.
--
-- Mapper (pkg/mapper): the interface of a backend, the backend modes, and the backends.
-- Mapper/File is pkg/mapper/file; Mapper/ConfigMap is pkg/mapper/configmap, where the goroutine
-- that watches the config map is a fold over its events and a lookup sees the store between two of
-- them, and Mapper/ConfigMap/Connect makes the store; Mapper/Crd is pkg/mapper/crd with its index
-- function, and Mapper/Crd/Sync the controller, whose calls of the queue and of the API server are
-- effects in a list; Mapper/Crd/Controller has how controller and mapper are made, the handlers of
-- the informer and the workers. A Go map is an association list, read by `lookup` and written by
-- `insert`.
--
-- Token (pkg/token/token.go): Token/Verify is Verify, in the order of its checks; Token/Query has
-- the query parameters and hasSignedClusterIDHeader; Token/Number is strconv.Atoi for 64-bit
-- integers. Base64, URL, date and JSON parsers are the record Parsers, and the HTTP client is a
-- field of Verifier; where a theorem needs something of them, it is a hypothesis. The query is a
-- list of parameters in the order in which the loop meets them; Token/Query/Order and
-- Token/Verify/Order compare two such orders, for Go picks one at random. Token/Hosts is
-- NewVerifier with stsHostsForPartition. Token/Generate is GetWithOptions and GetWithSTS, over
-- types of sessions and clients that are parameters; Token/Generate/Session and
-- Token/Generate/Client say which session and client they are to use; and Token/Generate/Short the
-- short forms with FormatJSON. Token/Cache (pkg/token/filecache.go) has the nested maps of the
-- credential cache, Token/Cache/Location the name of its file, and Token/Cache/Provider the
-- provider over it: the file is a value that Retrieve returns changed, and what the locks and the
-- operating system do in a run is an argument. Times are nanoseconds as natural numbers.
--
-- Server (pkg/server/server.go): Server/Authenticate is authenticateEndpoint, Server/Mapping is
-- doMapping, Server/Render is renderTemplates, Server/Chain is BuildMapperChain, Server/Start is
-- New with getHandler. Server/Serve is what a server that was made answers at each path, and Run
-- over the requests that it gets, with the labels that the latency histogram observes. Each
-- backend is taken as it answers at one moment, and the EC2 provider as a function, during one
-- request.
--
-- Ec2Provider (pkg/ec2provider/ec2provider.go): the two maps are a state; begin_lookup and
-- end_lookup are GetPrivateDNSName before and after its call of the API, and the batch loop is a
-- fold over its turns, which gives the batches that it starts. Ec2Provider/Publish has the effects
-- of answers, Ec2Provider/Batch the batches, Ec2Provider/Session is New with newSession.
-- Ec2Provider/Lookup is GetPrivateDNSName in turns, one section under the lock in each, with its
-- wait loop of 100 turns and the call of itself after it has queued an id. Ec2Provider/System runs
-- any number of lookups, the batch loop and the batches that it started, as a sequence of events
-- in any order, over the channel of 8000 ids; the field `undescribed` is a record for the proofs
-- alone, of the ids whose lookup ended with an answer that does not describe the instance.
--
-- Command (cmd/aws-iam-authenticator): Command/Root is initConfig, getConfig and getLogFormatter
-- over the values of viper, a parameter; Command/Flags the tables of flags and the keys that they
-- are bound to; Command/Server, Command/Init, Command/Token and Command/Verify what those commands
-- run, with the steps that they take and how they end.
--
-- Errors are values, with the data that a message quotes in place of the message. Case folding is
-- that of ASCII. Every function is total. Printing a number recurs on 19 digits, which suffice for
-- an integer of 64 bits; all else is structural.
--
-- Not modelled: logs, durations, locks within a section, the handling of connections, permission
-- bits of files, what commands print for their user, the version command and the feature gate, the
-- prompt for an MFA code, and generated or vendored code.
pub mod Shared
pub mod Arn
pub mod Command
pub mod Config
pub mod Httputil
pub mod Mapper
pub mod Token
pub mod Ec2Provider
pub mod Server
