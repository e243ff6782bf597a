-- ===== src/Lib.antt =====
-- ReachRun: the checks and decisions of a connectivity probe for networks that are filtered or broken.
--
-- ReachRun runs small probes (DNS, SSH, TLS, web) and reports each as an envelope that says what was
-- attempted, from where, and what was found. Every package that observes something has a Validate
-- beside it, which re-checks a result from its text alone, and packages that combine probes validate
-- what they are given. The development models the parts that decide: the envelope, the SSH
-- identification exchange, the decoding of DNS responses, the choice of HTTPS service bindings, the
-- retry sequence of a TLS target, the policy for web targets, the system resolver, and the path of a
-- website with its redirects. It relates what the observing side makes to the checks of the
-- validating side.
--
-- The parts and their files
--
--   internal/probe/envelope.go: Probe.antt has Envelope.Validate and `==` of platforms and of sources;
--     Probe/Checked.antt states its invariants.
--   internal/sshobservation/identification.go: Ssh/Identification.antt has parseIdentificationLine, and
--     Ssh/Identification/ the printer that is its inverse. Ssh/Exchange.antt has writeAll,
--     readServerLine and exchangeIdentification, and Ssh/Exchange/ what they promise. The connection is
--     a record of the answers to the k-th Read and the k-th Write; what it takes of the texts that it is
--     given is a field of the results.
--   internal/dnsobservation/observation.go, message.go: Dns/Types.antt has the evidence types,
--     Dns/Wire.antt what is read of the dnsmessage package, Dns/Decode.antt decodeResponse,
--     parseSection and validateResponseIdentity, Dns/Cnames.antt followCNAMEs, Dns/Evidence.antt
--     evidenceFromResponse and classifyAnswer, Dns/Hostname.antt normalizeHostname.
--   internal/dnsobservation/validate.go: Dns/Validate.antt has the evidence checks of Validate.
--     validateRemoteEndpoint is a Boolean argument of them.
--   internal/dnshttpspath/service.go: HttpsPath/Service.antt has evaluateBinding, mandatoryKeys, alpnIDs
--     and normalizedKeys, HttpsPath/Service/Description.antt what a decision must say by the parameters
--     alone, with Faults.antt, Usable.antt and Decision.antt beside it, and HttpsPath/Targets.antt relevantBindings, evaluateBindings and
--     serviceAddressTargets. They read the records that Dns/Types.antt describes.
--   internal/tlsretrybatch/observer.go, retry.go, types.go, normalize.go: TlsRetry.antt has the types,
--     shouldRetry and expectedTLSInput, TlsRetry/Attempts.antt runTarget with the state that the workers
--     share, and TlsRetry/Normalize.antt normalizeRequest and initializeTargets; TlsRetry/Scheduled.antt
--     is about the targets of a batch. internal/tlsretrybatch/validate.go: TlsRetry/Checks.antt has
--     validateTarget, and TlsRetry/Valid/ relates it to runTarget.
--   internal/nettarget/publicip.go, webhostname.go, webrequest.go: NetTarget/PublicIp.antt has
--     NormalizePublicIP with its table of prefixes, NetTarget/Hostname.antt NormalizeWebHostname, and
--     NetTarget/RequestTarget.antt NormalizeWebRequestTarget. NetTarget/Address.antt is what they read of
--     net/netip: an address is a number, with a zone in IPv6. NetTarget/Accepted.antt is about hostnames
--     that pass.
--   internal/platform/systemresolver/resolver.go, validate.go: SystemResolver.antt has the types,
--     SystemResolver/Resolve.antt Resolve, normalizeAddresses and classifyFailure,
--     SystemResolver/Checks.antt normalizeHostname and Validate; SystemResolver/Valid.antt relates them,
--     and SystemResolver/Accepted.antt is what the checks leave for its clients.
--   internal/webobservation/types.go, normalize.go, validate.go: WebObservation.antt has the types,
--     WebObservation/Normalize.antt normalizeRequest, WebObservation/Checks.antt Validate, and
--     WebObservation/Valid.antt what it leaves for its clients.
--   internal/webpath: WebPath.antt has the types of types.go, WebPath/Redirect.antt redirectTarget,
--     WebPath/Candidates.antt selectPublicCandidates and terminalContext, WebPath/Hops.antt observeHop,
--     WebPath/Chain.antt observeChain, WebPath/Observe.antt Observe and finish, and WebPath/Checks.antt
--     with its children Validate. WebPath/Ends.antt and WebPath/Follow.antt give the hops and the chains
--     as relations, which forget the time; WebPath/Limits.antt, Dialled.antt, WebUrl.antt,
--     Redirected.antt, HopValid.antt and HopAccepted.antt build on them, and Explained.antt,
--     ChainAccepted.antt, ReportChecked.antt and ReportAccepted.antt take a run through the checks of the
--     report: the stop reason, the chains, and the report as a whole. A path calls the resolver, the
--     web observer and the policy for targets, and checks each result with the Validate of its package.
--   Prelude.antt passes on what they share: lists, tests on native numbers, results, hexadecimal text,
--     sorting. Tests/ has runs and examples.
--
-- How code is modelled
--
-- A string or a byte slice is a list of numbers, and a pointer an Option. An error is a constructor in
-- place of its text. A Go map is a list of entries with the last write first. Code that is not in the
-- repository is an argument: the connection, the dnsmessage parser, the case folding and address texts
-- of the standard library, the TLS probe, the clock and the context. What the theorems rely on of it is
-- a named record: IsWriter (a Write returns no more than it was given), EvidenceFits (names and
-- addresses are printed in their canonical form), IsNetLibrary (an address that is written is read
-- back), IsWebLibrary (a web URL that is written is read back, and a web hostname has no capital, no
-- space and no port), IsSound and IsReporter (the clock does not read the
-- zero time, and the platform and the source are filled in), IsShared (the other workers, which run the
-- same code, keep a source once it is set). A nil slice is an empty list, with a Boolean field beside
-- it where the code asks which of the two it is. Where a run would read a nil pointer, the hop of a web
-- path ends as `panicked` and the chain with it in `none`.
--
-- Bounds and fuel
--
-- A loop that has no structure to follow takes fuel, and `none` means that the fuel ran out; the
-- theorems show that it does not. writeAll takes one round for each byte and one more. readServerLine
-- takes as many as the larger of its two limits, and one more. exchangeIdentification takes 17 rounds,
-- one for each preamble line and one for the identification. parseSection takes 129 rounds, one more
-- than the records allowed; the questions take two. alpnIDs takes one for each byte. observeChain takes four rounds, one for each
-- redirect and one more. The second loop of
-- followCNAMEs and the loop of runTarget have the bounds that the source gives them.
--
-- What is not modelled
--
-- Sockets, HTTP and TLS, the platform adapters, the command line and the browser are input and output.
-- The observers of DNS and of TLS batches above a single target, the input contracts of
-- Validate of internal/dnsobservation and the endpoint configuration stand outside the model: what it
-- reads of them is an argument. Of a web path, the constructors New and newObserver, which fill in
-- defaults, are left out. The world of a path answers by a count of the calls, so that a context, the
-- resolver or the web observer may answer each time as it likes; terminalContext reads each of its two
-- contexts once. A detail is kept as what it says.
mod Prelude
pub mod Probe
pub mod Ssh
pub mod Dns
pub mod NetTarget
pub mod SystemResolver
pub mod WebObservation
pub mod WebPath
pub mod HttpsPath
pub mod TlsRetry
pub mod Tests
