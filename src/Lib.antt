-- ===== src/Lib.antt =====
-- Ariadne, a persistent terminal multiplexer in Go: its core (internal/core), which owns the
-- workspaces, windows, panes, terminals, Tools, labels and attentions and through which every frontend
-- changes them; the store that saves the core's state; and of the terminal frontend the screen layout,
-- resizing, command lines, keybindings and the framing of input.
--
-- How the program is put together: frontends and plugins submit commands to a `Core`. One goroutine
-- takes the requests in turn. A command is checked, changes the state, and yields a reply and maybe
-- an event; the event gets the next revision and is put into the queue of every subscribed frontend.
-- Where a snapshot validator is configured (the daemon's state file), the command runs on a copy
-- that the validator sees, and an error rolls everything back. A frontend keeps a snapshot that it
-- brings up to date with the events. The terminal frontend cuts pastes and mouse reports out of its
-- input, finds keybindings in the rest, and reads their commands as command lines.
--
-- The files and the code that they model:
--   Base                     maps as association lists, lists over the native numbers, text
--   Layout                   internal/core/model.go, operations.go, stash.go: the tree of a window.
--                            Tree (LayoutNode), Edit (insertSplit, insertRelative,
--                            removePaneFromLayout, insertionRequiresSplit, splitByID), Weights
--                            (splitWeightsForInsertion), Hint (paneStashHint), Validate
--   Model                    internal/core/model.go and errors.go: the values and their validators
--   State                    internal/core/model.go: the state, Snapshot, stateFromSnapshot,
--                            validateHierarchy, CloneSnapshot, cloneState
--   Core.Machine             the state and the frontends' focus; commands are actions on them
--   Core.Labels, Attentions, Tools, Terminals, Workspaces, Windows, Panes, Closing, Moves,
--   Destinations, Stash, WindowStash
--                            internal/core/operations.go, transient.go and stash.go: one definition
--                            for each command, named after the source's function
--   Core.Commands            internal/core/command.go; `execute` of operations.go
--   Core.Replica             internal/core/apply_event.go: a frontend's snapshot that follows the
--                            events
--   Core.Executor            internal/core/core.go and subscription.go: `handle`, `publish`, the
--                            requests, and a frontend that reads from its channel
--   Tui                      internal/frontend/tui/layout.go, resize.go and nodeMinimum of minimum.go:
--                            where panes and separators stand on the screen, and resizing by keys
--   Tui.Prompt               internal/frontend/tui/prompt.go: parsePromptCommand, splitPromptCommands
--   Tui.Keys                 internal/frontend/tui/input.go: newBindingDecoder and Feed
--   Tui.Frames               internal/frontend/tui/input_frames.go: processInput, over any session
--   StateFile.Store          internal/statefile/store.go: the store that writes behind a timer
--   Examples                 the theorems at concrete inputs, and small runs
--
-- Conventions. IDs, revisions and generations are uint64 and weights uint32: where the source adds
-- to them without a check the model takes the sum modulo 2^64 or 2^32. Times are numbers in the
-- order of time, and 0 is the zero time. A command that writes before it fails keeps what it wrote,
-- as in the source. A map is a list of pairs on whose order nothing depends that the source fixes;
-- the lists in a snapshot are sorted as there. Where the source would dereference a nil layout the
-- model returns an error; no state that passed stateFromSnapshot has a visible pane in a window
-- without a layout.
--
-- Fuel: splitWeightsForInsertion halves at most twice, since two halvings bring every uint32 below
-- half of the range; evictAttentions has one round for each entry, and each round removes one.
--
-- What Tui.Keys says holds for every reading of key names (parseKeySequence is a parameter), and what
-- Tui.Frames says for every session that takes the keys, reports and pastes.
--
-- Not modelled: contexts and channels as such, closing the core,
-- copies that only guard against aliasing (a value is its own copy), and everything outside
-- internal/core but the parts above: the protocol, the daemon, the format of the state file, the
-- other parts of the frontends, plugins and platform code.
pub mod Base
pub mod Layout
pub mod Model
pub mod State
pub mod Core
pub mod Tui
pub mod StateFile
pub mod Examples
