-- ===== src/Lib.antt =====
-- DarkOS SvcKit: the platform layer, which is the C code that finds hardware modules and the modules
-- themselves, and parts of the C++ services above it. Paths start at the repository's root.
--
-- The parts and the files that model them:
-- - platform/libhardware/hardware.c and its header: `hw_get_module` finds `hal.<variant>.so` along a
--   search path, checks the module that it holds, and keeps it in a table. Hardware/Version has the
--   versions and the two structures, Hardware/Component valid_component, Hardware/Path
--   default_library_path, Hardware/Loader load_from_directory with the open handles as state,
--   Hardware/Scan the loop over the search path, Hardware/Cache hw_get_module and the table.
-- - platform/vendors/rockchip/common/mpi_sys_guard.c and
--   platform/vendors/visinextek/common/vs_sys_guard.c: SysGuard/Rockchip and SysGuard/Visinextek, the
--   counts of users that start and stop a vendor's media system.
-- - platform/vendors/visinextek/common/vs_venc_stream.c: VencStream, vs_venc_packet_acquire with each
--   memcpy recorded by its place and its bytes.
-- - platform/interfaces/*/I*.h: Hal, the version checks of `light_open` and its kin, and the two
--   blocks that an `open` of a device module allocates and its `close` frees.
-- - platform/ubuntu_x86_64: Host/Light, Host/Audio, Host/Wifi, Host/Codec, Host/Bluetooth,
--   Host/Sensors and Host/Graphics, the modules of the host build. A client gets a module from
--   `hw_get_module`, opens it by the helper of Hal, and calls the device's operations, each a function
--   from the device's private state to the next state and a reply.
-- - platform/shared/linux: Linux/Serial, the raw serial port of serial/serial_termios.c, and Linux/Gpio,
--   the GPIO directory of gpio/gpio_sysfs.c. platform/vendors/visinextek/socs/vs816/light/light_vs816.c:
--   Vs816/Light, the lamps on GPIO pins.
-- - SvcKit/base: Base/Reactor, the event loop of runtime/src/EventLoop.cpp with its tasks, timers and
--   descriptors; Base/Pool, the buffers of runtime/src/BufferPool.cpp; Base/Crypto, AES-256-GCM of
--   svc_security/svc_crypto/src/svc_crypto.cpp.
-- - SvcKit/subsystems/media: Media/G711 and Media/Audio, the codes and the coders of
--   src/codec/g711_audio_codec.cpp; Media/Queue, the bounded queue of src/core/media_pipeline.cpp.
-- - SvcKit/protocols/common/src/H264RtpPacketizer.cpp: Protocols/Rtp, the split of a video stream into
--   units and of a unit into payloads.
-- - SvcKit/subsystems/iva: a frame's detections go to the tracker (Iva/Tracker, of
--   src/tracker/byte_track_tracker.cpp), its tracks to the rules (Iva/Region, of src/perimeter), all
--   under the manager (Iva/Manager, of src/core/iva_manager.cpp), which takes the rules as an interface.
-- - SvcKit/subsystems/alarm: Alarm, the manager of src/core/alarm_manager.cpp and the rule of
--   src/rule/filter_rule.cpp: events wait in the event loop, become records, and go to a journal, which
--   the next process reads. The two locked sections of processEvent are two steps, begin_event and
--   finish_event, between which the clients' calls may come.
-- - SvcKit/subsystems/storage/src/core/storage_manager.cpp: Storage, the recordings and their cleanup,
--   Storage/Manager, which finds, reads and removes them, and Storage/Recorder, which writes packets in
--   segments.
--
-- Conventions. A return code of 0 is `ok`, a negative errno is `err`; `ok` carries what the function
-- writes through its output pointers. A pointer that may be null is an `Option`, or a `Bool` where
-- only its being null matters. Machine words are natural numbers with their wrap-around written out
-- (Common/Words). A mutex makes the code that it guards one step. Where C leaves the behaviour
-- undefined (a read or a write beyond a buffer, a null encoder, the join of a handle that names no
-- thread), the model has the result `none`. Lines of the module table that show one hw_module_t are
-- changed together (Hardware/Cache). What the system and the vendors' libraries answer (dlopen,
-- readlink, poll, calloc, RK_MPI_SYS_Init, x264, floating-point arithmetic, the clock, a client's
-- callback) is an argument, so a theorem holds for all of it.
--
-- Fuel. The search loop of hw_get_module runs on the length of the search path as fuel, which is
-- enough: each round takes at least one character (Hardware/Scan). The split of a video stream runs on
-- its length, and each round takes a byte of it; cleanup runs on the number of recordings, and each
-- round takes one (Storage/Cleanup); the search for the segment of an A-law code has seven halvings of a
-- number below 128. run_to_end in Host/Bluetooth gives the thread four steps: a thread that was asked to
-- stop ends within them. Every other loop is structural recursion.
--
-- Not modelled: the text of logs, of dlerror and of errors; the host's camera, GNSS and inference
-- modules, the V4L2 camera core and the vendors' other device modules; the pure functions host_sinf
-- and simulate_light_lux of the sensors; of the services, the media pipelines and their factory, the
-- RTSP server, the network manager, the key store and the configuration files; the text of a journal
-- or index, which the standard library reads and writes and which is the list of its entries here;
-- cJSON, which is another project's code.
pub mod Common
pub mod Hardware
pub mod SysGuard
pub mod Hal
pub mod Host
pub mod Linux
pub mod Alarm
pub mod Protocols
pub mod Media
pub mod Iva
pub mod Base
pub mod Storage
pub mod Vs816
pub mod VencStream
