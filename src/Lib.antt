-- ===== src/Lib.antt =====
-- A model of skylark, a service that watches Markdown files, takes the lines that begin with `!` as
-- commands to assistants, and writes the answers under them.
--
-- A file is processed by pkg/processor/concrete/processor.go: it reads the file, has the commands
-- parsed by pkg/parser/parser.go, asks the assistant of each command, which is a parameter there, and
-- writes the file with the commands marked as done and the answers under them. What an assistant is
-- given of the file comes from pkg/context/context.go. An assistant of pkg/assistant reaches its model
-- through the registry of pkg/provider/registry, and runs tools of pkg/tool in a sandbox of
-- pkg/sandbox; the provider of pkg/provider/openai has a rate limiter and counts its requests. The file
-- guard of pkg/security/concrete says which files may be read and written; its key store keeps keys in
-- an encrypted file, and its audit log keeps events. pkg/config
-- has the configuration, and stores of settings in memory and in a file; pkg/process/memory and
-- pkg/fs/memory keep processes and files in memory. The watcher of pkg/watcher/concrete debounces the
-- changes of a file, and the files to process are jobs of the worker pool of pkg/worker/concrete.
-- pkg/errors has the error values that the parts may pass on.
--
-- The files:
--   Base       shared names, Go's maps (Base/Dict), errors (Base/Errors), signed integers (Base/Int).
--   Text       texts as lists of bytes, with the functions of package strings that the code calls.
--   Parser     pkg/parser/parser.go: ParseCommand and ParseCommands are parse_command and
--              parse_commands (Parser/Command), ParseReferences is in Parser/References, ParseBlocks
--              in Parser/Blocks, MatchBlocks in Parser/Match, AssembleContext in Parser/Neighbours.
--   Processor  pkg/processor/concrete/processor.go: ProcessFile, Process, HandleResponse and
--              UpdateFile are process_file, process, handle_response and update_file.
--   Context    pkg/context/context.go: ParseReferences is in Context/Section, the sort in
--              Context/Priority, truncateContent in Context/Truncate, AssembleContext in
--              Context/Assemble, GetParentHeader and GetSiblingHeaders in Context/Relatives.
--   Assistant  pkg/assistant/assistant.go: Get, loadAssistant, parseToolUsage and buildPrompt in
--              Assistant; executeTool and Process in Assistant/Process, as execute_tool and process.
--   Tool       pkg/tool/tool.go: ValidateInput in Tool, Execute in Tool/Run, LoadTool and Compile in
--              Tool/Manager.
--   Sandbox    pkg/sandbox/sandbox.go; VerifyToolVersion in Sandbox/Version.
--   Provider   Provider/Interface for pkg/provider/provider.go, Provider/Registry for
--              pkg/provider/registry/registry.go, Provider/RateLimit for
--              pkg/provider/openai/rate_limiter.go, Provider/Monitor for
--              pkg/provider/memory/monitor.go, Provider/OpenAi for pkg/provider/openai/openai.go:
--              Send, handleToolCalls and doRequest are send, handle_tool_calls and do_request.
--   Security   pkg/security/concrete: the paths of file_guard.go in Security/Paths, the methods of the
--              guard in Security/FileGuard; key_store.go in Security/KeyStore; audit_logger.go in
--              Security/AuditLog.
--   Config     pkg/config/memory/store.go in Config/Store, pkg/config/file/store.go in
--              Config/FileStore (Load, Save and Set are load_values, save_values and set_value),
--              pkg/config/manager.go and pkg/config/config.go in Config/Manager.
--   Errors     pkg/errors/errors.go: New, Wrap, WithContext and Error are new_error, wrap_error,
--              with_context and error_text; pkg/errors/helpers.go in Errors/Helpers.
--   Process    pkg/process/memory/manager.go.
--   Fs         pkg/fs/memory/fs.go: open files in Fs/File, the file system in Fs/Memory,
--              Stat and Rename in Fs/Memory/Rename, ReadDir in Fs/Memory/Listing.
--   Watcher    pkg/watcher/concrete: debouncer.go in Watcher/Debouncer, watcher.go in
--              Watcher/Events, where a turn of its loop is notice.
--   Worker     pkg/worker/concrete/pool.go.
--   Tests      runs at concrete inputs.
--
-- Conventions. A text is its bytes, and the letters and white space that the functions on texts know
-- are those of ASCII. An error is a value of a Result; its message is left out. State is passed on
-- explicitly; a method that holds a mutex is one step. Goroutines take turns in any order: a list of
-- actions is a run of them. A time is a number of nanoseconds and an argument. Counters and sizes are
-- far below the ends of Go's integers, so they are natural numbers, or integers of Base/Int where they
-- may be negative, and do not wrap, but for the counters of the worker pool, which do.
--
-- Loops are structural recursion, but for the search for references in a text (find_all of
-- Parser/References), whose fuel is one more than the text's length: each round takes a byte at least.
--
-- What is not under the repository is a parameter: HTTP, JSON, YAML, the cipher, the compiler and the
-- binaries of tools, each with the laws that are relied on as a record of hypotheses (Faithful of
-- Security/KeyStore/Reads, ReadsBack of Config/FileStore/Reloaded), and the failures of the operating
-- system as arguments of each call.
--
-- Left out: stack traces; Glob of pkg/fs/memory; processes of the operating system, the
-- control of resources, logging and the command line, which are calls of the system.
pub mod Assistant
pub mod Base
pub mod Config
pub mod Context
pub mod Errors
pub mod Fs
pub mod Parser
pub mod Process
pub mod Processor
pub mod Provider
pub mod Sandbox
pub mod Security
pub mod Tests
pub mod Text
pub mod Tool
pub mod Watcher
pub mod Worker
