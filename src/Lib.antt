-- ===== src/Lib.antt =====
-- The VisionTAK kiosk client (src/visiontak_client), a full-screen display of the dashboards of a
-- server, as functions of its state.
--
-- The client fetches a list of dashboards from the server (api.py, models.py), keeps it in a cache
-- file, and shows the dashboards in a GTK window, each in a WebKit web view (ui/). A remote control
-- reaches the window over HDMI CEC (cec/). The controller (controller.py) connects them: it hands the
-- dashboards and the actions of the remote to the window on the main loop. The files follow these
-- parts:
--
--   Prelude, Prelude/        the shared names: tests, lists, integers, text, association lists
--   Python                   exceptions as values, and the text methods of Python that the source uses
--   Platform                 urllib.parse.urlparse with its ValueError, the route of a socket and
--                            Path.exists, as parameters
--   Json                     the values of json.loads, and bool(), str() and get of them
--   Actions                  actions.py: Action and DigitAction
--   Config, Config/          config.py: the record of settings and its defaults; Checks is __post_init__
--                            and _coerce, Load is load, Persist is persist and write_snap_config,
--                            Address is normalise_server_url and ensure_device_id, and Address/Authority
--                            says what host and port are
--   Models, Models/          models.py: Dashboard.from_payload, is_enabled, sort_dashboards
--   Api, Api/                api.py: parse_client_config, ConfigCache.save and load; Api/Parsing and
--                            Api/Cache hold the round trip of the cache, Api/Request the exchange with
--                            the server
--   Enrol, Enrol/            firstrun.py: discover and attempt_registration, with register of api.py
--   Discovery, Discovery/    discovery.py: Payload is the decoding of the option, Leases where it is found
--   Startup, Startup/        __main__.py: wait_for_wayland, and what main does until the application runs
--   Probe, Probe/            probe.py: the checks and the exit code
--   Netinfo                  netinfo.py: local_ip
--   Cec/Keymap               cec/keymap.py: action_for and action_for_key_name
--   Cec/Uapi                 cec/uapi.py: the layouts of the structures, the ioctl numbers, CecMsg
--   Cec/Kernel, Cec/Kernel/  cec/kernel.py: opening and claiming an address, Transmit what goes out,
--                            Messages what comes in; Safety, Runs and Link hold what the methods keep
--   Cec/Choice               cec/__init__.py: create_backend
--   Cec/Base                 cec/base.py: the events that every backend gives
--   Cec/Reader, Cec/Reader/  cec/__init__.py: CecReader, as what happens to its thread
--   Cec/Libcec, Cec/Libcec/  cec/libcec.py: the callbacks of libcec and their queue
--   Ui/Menu                  ui/menu.py: DashboardMenu
--   Ui/Policy                ui/policy.py: HostAllowlist and on_decide_policy
--   Ui/Setup                 ui/setup.py: the labels and the field of the setup screen; Ui/Setup/Submit is
--                            _submit, with _on_setup_submit of ui/kiosk_window.py behind it
--   Ui/MainLoop              the timeouts of the GLib main loop that the window adds
--   Ui/Pool                  ui/kiosk_window.py: the web views (_view_for, _touch, _evict_surplus,
--                            _drop_stale_views, _release_view) and the calls made to WebKit
--   Ui/Window, Ui/Window/    ui/kiosk_window.py: the window itself. Show is set_dashboards, show_index
--                            and the load signals; Handle is handle_action with the chooser and the
--                            digits; Create is __init__; Invariant and Methods hold what every method
--                            keeps, Frame what the rest of the methods leave alone, Runs the sequences
--                            of calls
--   Controller, Controller/  controller.py: the state of KioskController with its window. Refresh is the
--                            fetching of the configuration, Carousel the rotation and _dispatch,
--                            Enrolment the registration, Events attach, stop and the remote; System is
--                            the step relation of the whole client, and below it what every run keeps
--   Ui/Settings, Ui/Settings/
--                            ui/kiosk_window.py: the settings of WebKit; branding.py: logo_path
--   Ui/App, Ui/App/          ui/app.py: the environment, the first activation and the keyboard
--   Tests, Tests/            sample values and the theorems applied to them
--
-- A method is a function from the state to the state, and a handler that fails returns a Result with
-- the exception as a value. A str is the list of its code points; ints are integers over the native
-- numbers. A widget is kept by what the code sets on it: the children of the stack and the visible one,
-- the text of a label, the rows of the list. What the methods ask of WebKit is a list of calls, in
-- order. What the kernel answers to a system call of the CEC adapter, and what the server answers to a
-- registration, is an argument of the method that asks. Python's tables of the Unicode database, str()
-- of a list or a dict, json.dumps, json.loads and re.search are parameters.
--
-- The threads meet in the controller: timers, workers and the reader put calls on the queue of the main
-- loop. A handler runs as one step, with what the server answers as an argument, and Step lets the
-- steps of all threads come in any order. A threading.Timer is kept by its id, delay and job; time itself
-- is not kept, so a timer that is running may fire at any step, and the order is more than what the
-- delays allow.
--
-- The loop of _evict_surplus runs on fuel, the number of web views: each round releases one. str() of a
-- number runs on fuel one above the number, which has no more digits than that. The loop of
-- wait_for_wayland runs on fuel one above the seconds of the timeout, as each round sleeps one.
--
-- The addresses of the settings, of the server and of the allowed hosts, are taken to be accepted by
-- urlparse; where the server's dashboards, a failed page or a navigation bring another address, the
-- ValueError is modelled.
--
-- Not modelled: the wait of stop() for the reader thread, drawing and styling,
-- logging, TLS, the copy of a setting in snapd, the parsing of the command
-- line, signals, what the probe prints, packaging and scripts.
pub mod Prelude
pub mod Python
pub mod Actions
pub mod Config
pub mod Json
pub mod Models
pub mod Platform
pub mod Netinfo
pub mod Api
pub mod Enrol
pub mod Discovery
pub mod Startup
pub mod Probe
pub mod Controller
pub mod Ui
pub mod Cec
mod Tests
