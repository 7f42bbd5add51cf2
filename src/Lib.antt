-- ===== src/Lib.antt =====
-- ToolX: verification of the library's core parts.
--
-- TextCodec models src/textcodec.cpp and include/textcodec.h. The types, the errors and the
-- character helpers are in TextCodec/Defs; TextCodec/Hex, Base64 and Url hold one codec each
-- (hex_encode, hex_decode, hex_decode_to_buffer; base64_encode_impl and base64_decode_impl;
-- url_encode, url_decode), and their children the proofs. A text is the list of its bytes; the
-- words of Base64 wrap at 32 bits. A decoder returns the value, or its code with the error's text.
--
-- Hash models the checksums of src/utils.cpp that src/hashx.cpp passes on. A state is its words, which
-- wrap at 32 or 64 bits; an update is a recursion over the bytes of the block. An entry of the CRC
-- table is the function that fills it.
--
-- Cfgx models the configuration library of src/cfgx.cpp and include/cfgx.h.
--   * Cfgx/Path: ParsePath, EscapePathSegment, JoinObjectPath and FormatPathTokens. One round of the
--     loop of ParsePath is `step`; the loop runs on a fuel of one more than the length of the text,
--     which is enough since every round reads a character. An index is a 64-bit size_t.
--   * Cfgx/Canonical: CanonicalIniPath, a parse and a format.
--   * Cfgx/Node: the tagged union of Node, with the loops of its member functions. An object is the
--     vector of its entries, in which a key can stand twice; IsWf says that none does. A double is
--     its 64 bits.
--   * Cfgx/Access: GetNode, SetNode, RemoveNode and Exists, which walk a node by the tokens of a
--     path. The walk of SetNode through pointers into the tree is a recursion that puts the changed
--     child back into its parent, and returns the tree as the call leaves it beside the status.
--     The result of Array::max_size() is the parameter `maximum`.
--   * Cfgx/Merge: Merge, which is MergeInternal with no source trace. Its two errors cannot occur,
--     since the kinds are compared before.
--   * Cfgx/Overrides: RuntimeOverrides, the log of operations that Materialize runs on an empty
--     object. Its counter has 64 bits. Materialize goes on after a removal whose error text says
--     that the path is missing, so Cfgx/Message has the texts and IsMissingPathError.
--   * Cfgx/Compose: ComposeLayers with no source trace, the merges of the layers over a base.
--   * Cfgx/Json: ParseJson and ToJson. The state of JsonParser is the text that is left with its line
--     and column (Cursor); its members are functions from it to a value and where to go on, or a
--     reason and its place (Text, Number, Parser). The calls of ParseValue run on a fuel of one more
--     than twice the length of the text, and the loop over a string on one of its length, which are
--     enough since every value has a character and so has every separator. The loops over the items of an
--     array and an object return what they append. Printer writes with a given indent. The
--     conversions between a double and its text are parameters, `read_double` with the test
--     that the result is finite, and `show_double` at 17 digits.
-- Errors of Cfgx are constructors, one for each text that the source builds (Cfgx/Error).
--
-- Schemax models src/schemax.cpp. Compile is a chain of checks that the first failed one ends; the calls
-- of validate_schema_node and validate_node run on the number of nodes of the schema as fuel, which is
-- enough since a nested call is on a schema inside its own. validate_node passes the issues from part to
-- part, and a part goes on, returns, or uses a null pointer (Validate). Issues has the same issues as
-- lists that nothing cuts short, and Conforms the rules that a schema states of a value. A double is its 64 bits, with the comparisons, the conversions and floor on
-- them (Numbers).
--
-- Async models the ThreadPool of src/asyncx.cpp. A Pool is its state under the mutex with the counters, which
-- wrap at 2 ^ 64; a task is named by a number and a time is a number of ticks of the steady clock.
--   * Async/Queue: the queue and the choice of the next task in WorkerLoop.
--   * Async/Pool, Async/Sections, Async/Timers: each function from one acquisition of the mutex to the next
--     release, with the waits as a result (waits, idles, sleeps). enqueue_task is EnqueueTask up to its
--     first wait, and timed_wake and plain_wait are what comes behind a wait.
--   * Async/System: the callers, the workers and the scheduler as a step relation. A step is one section; a
--     wait that ends early is a step that changes nothing. Start is one step with the threads it
--     creates, and Join is two, its end where no thread is left. Start and Join are called by one thread at a time.
--     A task that is run neither fails nor calls the pool other than as a caller does.
--   * Async/Fairness: the order in which tasks are taken.
--
-- Httpx models Client::Send of src/httpx.cpp (Httpx/Client). The state of a Client is its counters, which
-- wrap at 2 ^ 64, and the circuit. What SendOnce comes to and the clock is a World for each call; the loop
-- over the attempts runs on the retries that are left, and Httpx/Calls has the ways in which it ends. Calls come one after the other. Httpx/Cookies has the
-- matching of domains and paths and the cookie header, and Httpx/DotSegments has RemoveDotSegments on a fuel of
-- the length of the path, which is enough since each round takes a character at least.
--
-- Well formed (IsWf) means that no object holds a key twice, at any depth.
--
-- Not modelled: the parsers and printers of INI, TOML and YAML, validation, the reading of
-- environment layers, source traces, reloading and encryption; of asyncx the
-- tokens, TaskGroup and the futures of Submit; of httpx URLs,
-- redirects, the storing of cookies, messages and sockets; fsx, argtool,
-- logsys, tuix and sysx; and the command line tools. Memory that runs out is not modelled either.
pub mod Prelude
pub mod Hash
pub mod TextCodec
pub mod Cfgx
pub mod Schemax
pub mod Async
pub mod Httpx
