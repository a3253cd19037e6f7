-- ===== src/Lib.antt =====
-- A client of the GameStream protocol: the parts of moonlight-scarlet that turn the local gamepads,
-- touches, keys and mouse into input of a remote host, and that start and end its sessions.
--
-- Input arrives as events of ScarletUI. moonlight/src/gamepad.rs keeps sixteen slots of gamepads and
-- sends the host what has changed in them; moonlight/src/touch.rs gives each touch of the video
-- surface a contact and forwards it as a native touch or as a mouse drag; moonlight/src/input.rs
-- translates keys, buttons and the wheel, records what it has sent, and lets go of all of it. All
-- three send through `ConnectionControl` of moonlight-sys/src/connection.rs, which checks a call
-- and hands it to the C core. Before that, moonlight-control/src/session.rs launches or resumes an
-- application on the host, with the preferences of settings.rs and an address of hosts.rs, once
-- client.rs has found the host and has paired with it. moonlight/src/stream.rs then starts the one
-- connection of the process and consumes its video frames, while moonlight-sys/src/audio.rs takes
-- the audio callbacks of the core; on Scarlet, moonlight-sys/src/scarlet.rs is the C library below it.
--
-- Which file models what:
--   Sys/Types, Sys/Buttons   the input vocabulary of moonlight-sys/src/connection.rs
--   Sys/Floats               `f32`, a parameter: a carrier with the operations the program calls
--   Sys/Control              the input methods of `ConnectionControl`, and `Core`, the C core
--   Sys/Stream               `StreamConfiguration` and its check
--   Sys/Laws                 theorems on the input methods
--   Gamepad/Defs             `Gamepads`, `observe`, `translate`, `mask` of moonlight/src/gamepad.rs
--   Gamepad/Sync             `sync`, `release_all` and the rest of `RemoteGamepads`
--   Gamepad/Host             the host as the packets change it, and the contract of a transport
--   Gamepad/Loops, Delivery, Mirror, Synced, Mask, Slots, Observe, Translate, Refinement
--                            theorems on gamepads
--   Video                    `fit_size` of moonlight/src/video.rs; Video/Fit its theorems
--   Touch/Defs, Touch/Route  `TouchInput` of moonlight/src/touch.rs, over any `TouchSink`
--   Touch/Contacts, Valid    theorems on the contacts
--   Touch/Surface            the contract of a sink: what the host holds down
--   Touch/Stuck, Held, Events theorems over such a sink
--   Input/Keys, Wheel        the translations of moonlight/src/input.rs
--   Input/Defs, Remote       its state and the handlers of `RemoteInput`
--   Input/Sets, Shortcuts, Tracking, Release  theorems on them
--   Session/Defs, Request, Start  moonlight-control/src/session.rs over an HTTP client; Session/Ready,
--                            Valid, Steps and Outcome theorems on it
--   Config/Files, Settings   moonlight-control/src/settings.rs over a file and a JSON codec
--   Config/Hosts, History    moonlight-control/src/hosts.rs and theorems on it
--   Audio/Setup, Callbacks   moonlight-sys/src/audio.rs over any renderer; Audio/Latch theorems on it
--   Conn/Defs, Start, Frames `Connection`, `VideoFrame` and the stop requests of
--                            moonlight-sys/src/connection.rs; Conn/Bridge the C bridge and the process
--   Conn/Lifecycle           the process in any order of their calls; Conn/Owned,
--                            Waiting, Unique theorems on it
--   Stream/Defs, Receive, Preview, Decode, Run  moonlight/src/stream.rs: the loop, the two variants of
--                            `consume_video`, and `run`; Stream/Diagnostics `Monitor::enter`
--   Stream/Handled, Ends, GivesBack, Released   theorems on the worker
--   Scarlet/Mutex            `RawMutex` of moonlight-sys/src/scarlet.rs; Scarlet/Sound, Exclusion theorems
--   Scarlet/Os, Alloc        its errno and its allocator; Scarlet/Rounding, Payload theorems
--   Scarlet/Address, Socket, Options  its socket calls; Scarlet/Handles theorems
--   Scarlet/Lookup           its name lookup; Scarlet/Chain theorems on the list
--   Control/Defs, Calls, Xml moonlight-control/src/xml.rs and the address of a host
--   Control/Pairing, Client  moonlight-control/src/client.rs; Control/Accepted, Proved and
--                            Paired theorems
--   Prelude                  shared names, lists, results, integers and bits
-- The modules named Tests, with Sys/Samples, Input/Samples and Conn/Samples, apply the theorems at
-- concrete inputs.
--
-- A stateful operation takes its state and the world of the connection and returns its result with
-- both, also where `?` returns early. Machine integers are natural numbers or `ℤ` with the casts
-- written out. The loops of the handlers run over sixteen slots, ten touch ids, three buttons and
-- finite lists, and carry no fuel beyond these bounds. The loop of `consume_video` runs until it is
-- stopped: it takes a schedule that tells before each turn whether another thread has requested the
-- stop, and gives no result where the schedule is over first. A
-- handler is one step, also where the source holds its mutex for less than the whole of it; a start of
-- a connection is two, before and from the call of the core on, with other threads between; the mutex
-- of scarlet.rs is a step for each atomic operation.
--
-- The C core is `Core`: a call returns an error code and the next state. What is assumed of it, and of
-- a transport, a sink or a control, is a record of laws that a theorem names: a call that is taken
-- has its effect at the host and a call that fails has none. Keys at the host are the virtual-key codes
-- below 256, which are all that the keyboard call tells apart.
--
-- The HTTP client, the XML reader, random bytes, the file system and the JSON codec are parameters in
-- the same way, and so is `Endpoint::parse` for the saved hosts. Of an error or a request argument the values are kept,
-- not the text that they are printed to.
--
-- So are the C bridge, the decoder and the video output of Scarlet, the kernel, the allocator of Rust,
-- the resolver, the URL and XML libraries, and the cipher, hash and signatures of
-- moonlight-control/src/crypto.rs.
--
-- Not modelled: the storage of the identity and the cryptography of crypto.rs, the surfaces of video.rs
-- but for its fit, the audio device of moonlight/src/audio.rs, the condition variable and the
-- threads of scarlet.rs, the user interface, and all trace output.
pub mod Prelude
pub mod Sys
pub mod Gamepad
pub mod Video
pub mod Touch
pub mod Input
pub mod Session
pub mod Config
pub mod Audio
pub mod Conn
pub mod Stream
pub mod Scarlet
pub mod Control
