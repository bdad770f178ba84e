-- ===== src/Lib.antt =====
-- Verification of the MSP430 emulator of this repository, src/newmadrid/msp43x, of the server that
-- runs one emulator for each user, src/newmadrid/cpuserver, of the lexer, parser and annotator of
-- HTTP requests, src/matasano/web, of a compiler of plain-text forms,
-- src/github.com/latacora/formaldehyd, of the ranges and timeouts of a port scanner,
-- src/matasano/util, and of a moving average, src/matasano/ewma.
--
-- The emulator has five parts. A memory (simple_memory.go) is an array of 65536 bytes;
-- hookable_memory.go puts hooks at addresses of it. The disassembler (disasm.go) turns the bytes at
-- the program counter into an instruction. The CPU (cpu.go) holds sixteen registers and the memory
-- behind an interface; `Execute` resolves the operands of an instruction, computes, sets the flags
-- and stores; `Step` fetches, decodes, advances the program counter and executes. `LoadHex`
-- (loader.go) fills a memory from an image.
--
-- The server (user_cpu.go) keeps a machine for each user: a CPU over a memory with hooks,
-- breakpoints, and a state. `Loop` serves the requests that arrive, and between them steps a running
-- machine. The hooks (hooks.go) run when a program stores to an I/O address, and reach a Redis
-- database. The handlers (cpu_interface.go) send closures to the loop and answer. A user's session
-- is a cookie that is enciphered and sealed (session.go).
--
-- The web tools lex a request (lex.go), parse its tokens into nodes (parse.go), and mark the parts
-- that can be changed, as `{{value}}(index)` (annotate.go); `findFrags` reads the marks back, and
-- rules (rules.go) say what is injected there.
--
-- The form compiler cuts a text into tokens, parses these into a tree of nodes under a document
-- (parse.go), and writes the tree as JSON (emit.go). The port scanner (portscan.go) reads ranges of
-- ports, puts the ports in a random order, and waits for each host by a moving average of its
-- answers.
--
-- Files:
--   Prelude         shared names; Go's integer conversions (Prelude/Word, Prelude/Int), the results of
--                   functions that may fail or panic (Prelude/Errors), of those that also change a
--                   state (Prelude/Outcome), of those with fuel (Prelude/Partial) and of those with
--                   both (Prelude/Process); text (Prelude/Text)
--   Bits            `&` and `|` with masks and fields, as arithmetic
--   Msp43x/Constants, Slice, Memory, SimpleMemory, HookableMemory, Insn, Disasm
--                   constants.go, Go's slices, the interface `Memory` of cpu.go, simple_memory.go,
--                   hookable_memory.go, the instruction record of cpu.go, and disasm.go
--   Msp43x/Cpu, Operand, Alu, Execute, Step
--                   cpu.go: registers and flags; `src_operand`, `dst_operand` and their stores; the
--                   values and flags of each opcode; `Execute`; `Step`
--   Msp43x/Listing, Loader, Stabs
--                   `Insn.String` of disasm.go; `LoadHex` of loader.go; stabs.go, the source lines of
--                   addresses
--   Cpuserver/Site, Hooks, UserCpu, Handlers, Session
--                   Redis and what the hooks reach; hooks.go; user_cpu.go; cpu_interface.go; session.go
--   Web/Lexer, Nodes, Parser, Annotate, Rules, Rules/Parsing
--                   lex.go; the nodes, the stack and the tables of parse.go; its functions; annotate.go;
--                   rules.go, with `ParseRules` apart
--   Forms/Tokens, Nodes, Rounds, Fields, Parser, Json, Print
--                   `tokenize` of parse.go; the nodes and the parser's state; its methods; emit.go;
--                   `String` and `ToString` of parse.go
--   Forms/Passwords the stored passwords of its service, my/security.go
--   Portscan/Ranges, Policy
--                   src/matasano/util/portscan.go: the ranges of ports, and the policy that sets
--                   timeouts by moving averages of the answers
--   Ewma            src/matasano/ewma/ewma.go, a moving average
--   Msp43x/*/…, Cpuserver/*/…, Web/*/…, Forms/*/…, Portscan/*/…
--                   the theorems on each of these; Msp43x/Disasm/Encode is the encoding of
--                   instructions, written apart from the decoder
--   Msp43x/TestMachine, */Tests
--                   small machines, tests, and the theorems at concrete inputs
--
-- Correspondence. A function keeps its name in snake case (`Load6Bytes` is `load_6_bytes`). A method
-- that changes its receiver takes the state and returns an `Outcome`: a value or an error, each with
-- the state it leaves, or a panic. A `uintN` is a number below 2 ^ N with each wrap written out; a
-- signed integer is a `ℤ`. Opcodes stay numbers, since the source tests them against the constants
-- of both groups. The register file and the memory are functions from a register or an address. The
-- body of `Execute` is split at the source's own steps: load, evaluate, flags, store.
--
-- Fuel. The emulator needs none: each instruction is finite, and sequences are recursions on lists.
-- `lex` carries 2 n + 4 rounds for a buffer of n bytes, and a run of runes n + 1, since at most two
-- states begin at a byte, and every rune that is accepted moves on. The loops of the parser have a
-- bound that is an argument; a result (Prelude/Partial) says when it is used up. Every round of them
-- but that of `parseTryScheme` takes a token, so that as many rounds as tokens and two more are
-- enough where it is not entered. The hooks have two bounds as arguments: how deep they run one
-- another, past which Go's stack is used up, and how often the input hook asks before it counts as
-- waiting for ever.
--
-- `Parse` of a form has two rounds more than there are tokens, for each of its loops: a round takes
-- a token or ends with an error. The way up from a node has as many rounds as there are nodes, and
-- the printing of a form the depth of its kinds, which is four. `tokenize` has a bound that is an
-- argument.
--
-- Pointers. A node of a form is a number, and the nodes in use are a store. A nil pointer as the
-- current node is a panic when it is set, since `Parse` uses that node at its end. Widths, lines and
-- heights do not wrap.
--
-- Goroutines and channels. A channel that one goroutine writes and one reads is the list of what is
-- sent; the parser's also says whether it is closed. `Loop` is a recursion on what arrives in each
-- round: a request or none. A handler's closures run between two rounds, while the handler waits,
-- and those sent to the goroutine of Redis run at once, since that goroutine takes them in order.
-- The several closures of `LoadHexFromRedis` count as one request; the load runs in the goroutine of
-- Redis, so a hook that it runs waits for ever when it sends there. The text that `DebugLogHook` logs
-- is copied at once, where the source's goroutine reads the machine's memory later.
--
-- A hook is a value of an interface that takes the memory holding the hook. The memory here holds a
-- hook's name, and the record `Hooks` says what the named method does to the memory and to a world
-- outside; the theorems hold for every such record.
--
-- Parameters stand for what the source takes from Go's library: the texts of numbers that
-- `fmt.Sprintf` prints (a record `Format`), `strconv.ParseInt`, the expression that stabs.go
-- matches, `math.Ilogb`, of which the theorem on moving averages asks the two values that are used;
-- `utf8.DecodeRune`, of which the lexer's theorem asks that it takes at most the bytes that there
-- are and one byte for an ASCII rune; the commands of Redis with the clock (a record `Redis`); the
-- scanner of forms, which is a package outside the repository, with the text and the span of tokens
-- (records `Scanner` and `Lexis`), and the writing of JSON and of maps; the random numbers and the
-- parsing of numbers of the port scanner; and, for passwords, scrypt, random bytes and hexadecimal
-- text; MD5; the decoding of JSON bodies; and, for sessions, base64, the stream cipher, the HMAC in
-- base64, whose length does not vary, and JSON.
--
-- Not modelled: the printing of registers and memory and the trace lines of `Step`, which are output
-- only; the pages of the server and the keys of its sessions, its map of machines, and the sockets
-- below it; the goroutines that run rules against each other (`Ruleset.Run`, `RunAnnotated`); the
-- rest of the service and the front end of the form compiler; the probes of the port scanner and its
-- goroutines; the other tools in src/matasano; and the copies of other projects
-- (src/canonical/goamz, pat, redigo). The slice that `Load6Bytes` returns is read before the memory
-- changes, so it is a view of the memory as it was. The fields of an instruction that is returned
-- with an error are dropped, as by every caller.
mod Prelude
mod Bits
pub mod Msp43x
pub mod Ewma
pub mod Web
pub mod Cpuserver
pub mod Forms
pub mod Portscan
