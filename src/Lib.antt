-- ===== src/Lib.antt =====
-- Vegeta, an HTTP load tester: the library of lib/, modelled and proved file by file.
--
-- How the parts interact. A caller starts an attack (lib/attack.go) with a targeter (lib/targets.go) and a
-- pacer (lib/pacer.go). The driver goroutine asks the pacer before each hit for a wait or a stop, sleeps,
-- and hands a tick to a worker, of which it starts more if all are busy, up to a maximum. A worker numbers
-- its hit, takes a target, and sends the result (lib/results.go) to the caller. The results are encoded,
-- decoded from several files in turns, and added up in metrics (lib/metrics.go) with an optional histogram
-- of latencies (lib/histogram.go), which a report shows, or drawn in a plot (lib/plot) of at most so many points
-- (lib/lttb). The commands are loops around these parts.
--
-- The files and what they model:
--   Prelude, Prelude/*         names of the libraries, Boolean tests, lists, 64-bit integers, maps, texts
--   Outcome                    calls that may panic, and calls that give a value or an error
--   Float                      float64 as a parameter without laws; Float/Sample is an instance for tests
--   Decimal                    strconv.FormatInt and its relatives
--   Pacer/Constant             lib/pacer.go, ConstantPacer: Pace, Rate, hitsPerNs
--   Pacer/Linear, Pacer/Sine   lib/pacer.go, LinearPacer and SinePacer
--   Attack                     lib/attack.go: the driver of Attack, the workers, the critical section of hit,
--                              and Stop, as one step function over a schedule of events
--   Attack/Exchange            lib/attack.go, the HTTP exchange of hit; lib/targets.go, Target.Request
--   Attack/Plotted             lib/attack.go with lib/plot/plot.go: the results of an attack in a plot
--   Attack/Settings            lib/attack.go: NewAttacker and its options, as the values that the Attacker holds
--   Attack/Settings/Command    attack.go: the options that the command gives NewAttacker
--   Dial                       lib/attack.go, ConnectTo and firstOfEachIPFamily
--   Dial/Cached                lib/attack.go: the dial function of DNSCaching
--   Dial/Resolver              internal/resolver/resolver.go
--   Flags                      flags.go, the Set methods
--   Results                    lib/results.go: Result, End, Equal and headerEqual
--   Results/Csv                lib/results.go: the rows of NewCSVEncoder and NewCSVDecoder
--   Results/RoundRobin         lib/results.go: NewRoundRobinDecoder
--   Results/Detect             lib/results.go: DecoderFor
--   Results/Json               lib/results.go: NewJSONEncoder and NewJSONDecoder, and lib/targets.go,
--                              NewJSONTargetEncoder, over the generated code for a value
--   Results/Sorted             lib/results.go: Results, which sorts results by time
--   Histogram, Histogram/Json  lib/histogram.go: Add and Buckets.UnmarshalText; MarshalJSON
--   Metrics                    lib/metrics.go: Metrics.Add and Close, LatencyMetrics
--   Targets, Targets/Http      lib/targets.go: NewHTTPTargeter and peekingScanner
--   Targets/Json               lib/targets.go: NewJSONTargeter
--   Targets/Static             lib/targets.go: NewStaticTargeter
--   Targets/ReadAll            lib/targets.go: ReadAllTargets
--   Lttb                       lib/lttb/lttb.go: Downsample and sample
--   Plot                       lib/plot/plot.go and lib/plot/timeseries.go: the series of a plot; plot.go, its loop
--   Plot/Page                  lib/plot/plot.go: the data, the labels and the colours of the page
--   Plot/Written               lib/plot/plot.go: New and its options, Append, WriteTo and countingWriter
--   Reporters                  lib/reporters.go: rounding and the values of rows; lib/histogram.go, Nth
--   Reporters/Writing          lib/reporters.go: the reporters, line by line, with their write errors
--   Prom                       lib/prom/prom.go: NewMetrics, Register, Observe
--   Reports                    report.go: the loop of the command and the choice of a report
--   Commands                   encode.go, attack.go (processAttack) and file.go
--   Commands/Dispatch          main.go: the profiles, the choice of a command and the deferred calls
--   Commands/Tls               attack.go, tlsConfig
--   Commands/Launch            attack.go, attack: from the options to the targeter and the output
-- The modules below these hold the lemmas and theorems, and the Tests modules concrete runs.
--
-- How the code is represented. A pointer receiver's method is a function from the old to the new state. Go's
-- uint64 is a natural number modulo 2^64, int64 an integer that wraps, time.Time the nanoseconds since
-- the Unix epoch, a string the list of its characters, a map an association list, a slice a list (so the aliasing
-- of slices is not modelled). A panic is the outcome `panics`. Goroutines are interleaved: an event is
-- one move of the driver, of a worker, of the clock or of a caller, and a run is a sequence of moves that
-- are possible in turn; a theorem about runs holds for every such sequence. Each of the driver's
-- clock readings and pacer calls is one move, as is the critical section of hit.
--
-- Bounds and fuel. The loops over the lines of a target file have one round more than the scanner holds
-- lines, and each round reads a line. ReadAllTargets has the number of its rounds as an argument and answers
-- `none` when they run out; one round more than there are lines is enough, for any source, and
-- Commands/Launch gives as many. The loop of `vegeta encode` has the number of its rounds as an argument
-- too, and its theorem says how many are enough. The loop of SinePacer.Pace has its five rounds. The loop of a plot's series has a round for each
-- buffered point, and each round takes one out.
--
-- Parameters. float64 arithmetic, the estimator of quantiles (github.com/influxdata/tdigest),
-- url.ParseRequestURI, os.ReadFile, time.ParseDuration, http.NewRequest, Client.Do, net.ParseIP,
-- net.SplitHostPort, the size parser github.com/c2h5oh/datasize, base64 with the header format, the
-- decoders behind NewRoundRobinDecoder, the generated parser of a JSON target, the compressed series
-- of github.com/tsenart/go-tsz, the vectors of the Prometheus client, the DNS cache with the shuffle and the
-- order in which dials end, the writers of the reports and of the page, the template, NaN, the making of key pairs and certificates, and the errors of files
-- and of writing are arguments of the definitions that call them, or part of the events that a loop
-- goes through.
--
-- Not modelled: what a dial function does on the network, the refresh of the DNS cache and the cancelling of dials, the aliasing
-- of slices, such as the values of a default header that targets share, and of the default TLS configuration, the gob codec of results, the layout of
-- a line of a report and of the page of a plot, the HTTP server of the Prometheus metrics, the
-- definitions of the flags; generated code, fuzz harnesses and the files of one platform.
pub mod Prelude
pub mod Prom
pub mod Outcome
pub mod Float
pub mod Pacer
pub mod Plot
pub mod Lttb
pub mod Reports
pub mod Commands
pub mod Reporters
pub mod Attack
pub mod Decimal
pub mod Results
pub mod Histogram
pub mod Metrics
pub mod Targets
pub mod Dial
pub mod Flags
