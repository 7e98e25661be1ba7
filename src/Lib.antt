-- ===== src/Lib.antt =====
-- A model of the host simulator of the CrossPoint e-reader firmware: the hardware that the firmware
-- sees, made of SDL and sockets. Paths below are from the repository's root.
--
-- The firmware's main loop calls `HalGPIO::beginFrame` once per frame and `HalGPIO::update` any number
-- of times, asks `HalGPIO` for buttons, touches and gestures, draws into the frame buffer of `HalDisplay`
-- and has it refreshed; `HalDisplay` turns the frame buffer into pixels and tints them by the state of
-- `HalFrontlight`. `BoardConfig` says which board is simulated, and all of these ask it what the board
-- has. `CrossPointWebServer` and `WebSocketsServer` take file transfers from a browser, `WebServer` serves the
-- firmware's own pages, and `HalStorage` is the card that all of them read and write.
--
-- Base (with Tests, Lists, Search, Words and Text): the shared names. A number is a natural number; an unsigned
-- integer of w bits is a number with its wrap-around written out as `% 2 ^ w`. An array of a fixed
-- extent is a function of its index, a byte buffer with a length is a list.
--
-- Board: src/BoardConfig.h, the profiles and their selection, and the device questions of
-- src/HalGPIO.cpp. A combination of compile-time macros is a value of `Build`.
--
-- Gpio: src/HalGPIO.cpp as it is built for iOS. Floats is the arithmetic on `float`, a parameter of the
-- model; State the file's variables in one record `Gpio` and what a call reads from outside in a record
-- `Env`; Touch a contact's operations; Keys the home key, the injected keys and the frame boundary;
-- Script the scripted and the live touch events; Events the poll loop of `HalGPIO::update`; Query the
-- questions of the firmware; Schedule the parser of the script, with `sscanf`, `std::sort` and a float sum
-- as parameters; Sleep the loop of `startDeepSleep` over a list of its rounds. The other children hold
-- proofs. The events that one poll drains are a list, each with the environment in which it is handled.
--
-- Controls: src/SimulatorOnScreenControls.cpp, the strip of keys of a build other than iOS. The window's
-- size and whether the strip is on are arguments; Hits holds the proofs. The drawing is SDL.
--
-- Display: src/HalDisplay.cpp. State has the buffers and the lending of the frame buffer, Draw the
-- drawing of images, Grayscale the conversion to pixels and the two planes of the grayscale preview. A
-- write through the null pointer that `getFrameBuffer` returns while the frame buffer is lent is `none`. The
-- panel has 800 by 480 pixels; the X3 build, whose panel has 792 by 528, is not modelled.
--
-- Frontlight: src/HalFrontlight.cpp and the tint of `HalDisplay::presentIfNeeded`.
--
-- Web: src/CrossPointWebServer.cpp. Decode, Path, Request, Multipart and Escape are the functions on texts;
-- Storage is what the server calls of the storage, a parameter with an abstract state, and the functions
-- that copy and write through it; every path reaches the storage as the C string of its text, up to the first
-- zero byte; Handlers and Dispatch are `handleClientRequest` from the parsed request
-- on, and Parse is `parseRequest`, which reads it. A copy of a directory runs on fuel; when it runs out, the state is the one at that moment, and what
-- is proved of the state holds for every fuel. The rounds over the parts of an upload have the body's
-- length as fuel, of which each round uses a boundary's length. The other children hold proofs. The map of
-- a query is a list in which the newest entry comes first.
--
-- Http: src/WebServer.cpp, the server of the firmware's own pages. Text and Multipart are the functions on
-- texts; State is the state of a request, `Connection`, with the calls that answer it; Head the request
-- line and the headers; Receive the loops over `recv`, whose results are a list; Serve all that the worker
-- thread does with one client, up to `close`. Routes and request handlers are the firmware's and are
-- functions on `Connection`, which holds a state of theirs. What the coming `send` calls accept is a list of
-- numbers. The rounds over pieces, parts and digits have the length of the text, or the number, as fuel. The
-- other children hold proofs.
--
-- Storage: src/HalStorage.cpp. Paths resolves a path under the card's directory; Ops are the calls of
-- `HalStorage` over the POSIX calls, a parameter with an abstract state; File reads and seeks in one open
-- file over the POSIX calls on its descriptor, through the window of a container's entry or not. The removal
-- of a directory runs on fuel; when it runs out, the state is the one at that moment, and what is proved
-- of the state holds for every fuel. Symbolic links are not seen: a path lies under the root as far as
-- names tell. The other children hold proofs.
--
-- WebSocket: src/WebSocketsServer.cpp. A socket is the list of what its successive `recv` calls find; Frame
-- has the frames that are sent and read, Clients the table of clients and the event queue, Session the
-- loop of a client's thread. That loop runs on fuel, one unit a round; one more than the number of messages
-- is enough for a connection that ends after them.
--
-- Clock: src/HalClock.cpp, the time of day as text. Table checks the texts of all minutes of a day.
--
-- Lifecycle: src/SimulatorLifecycle.cpp and src/SimulatorNetworkPorts.h, as functions of the environment's
-- variables.
--
-- Rtos: src/freertos/semphr.h and src/freertos/task.h. Semaphore is the binary semaphore with its waiting
-- threads as a step function on events, a list of which is an interleaving; Mutex the recursive mutex,
-- a step for each statement that changes the library's mutex or the copies that other threads read;
-- Notify the counter of notifications. A wait is a test of its predicate at each wake-up, which is what the
-- library's condition variable promises.
--
-- Base64: src/base64.h and src/mbedtls/base64.h.
--
-- Memory: the budget of src/HalMemory.cpp, one call after another.
--
-- Tests: runs on concrete inputs. The arithmetic on `float` is instantiated there by whole
-- thousandths.
--
-- Not modelled: the SDL window, textures and threads, the sockets' system calls, the file system, the
-- network clients and the shims of ESP-IDF and Arduino headers, which are I/O or thin
-- wrappers, and src/stb_image.h, which is vendored.
pub mod Base
pub mod Base64
pub mod Board
pub mod Clock
pub mod Controls
pub mod Display
pub mod Frontlight
pub mod Gpio
pub mod Http
pub mod Lifecycle
pub mod Memory
pub mod Rtos
pub mod Storage
pub mod Tests
pub mod Web
pub mod WebSocket
