-- ===== src/Lib.antt =====
-- S-Ingress: a Kubernetes ingress controller, the reverse proxy that it configures, and the modules
-- that put middlewares into the requests.
--
-- The program. The controller (pkg/controller) keeps what it knows of the cluster in one state,
-- turns each ingress of its classes into routes, and hands the merged routing configuration to the
-- proxy (pkg/proxy), which looks up the host and the route of a request, runs the middlewares of
-- the modules (modules) and forwards the request to the endpoint of the route. pkg/config reads the
-- configuration file.
--
-- The files.
--   Common/       lists, maps, Go strings as bytes, integers of 64 bits, network addresses
--   Proxy/Routing pkg/proxy/config.go: AddRoute, LookupRoute, MatchesPath, AddHost, LookupHost
--   Proxy/Serve   pkg/proxy/serve.go: handleHttp, proxyRoute, callMiddleware, proxy; Proxy/Server
--                 has ServeHTTP with the metrics of metrics.go, Proxy/Context the context and the
--                 response writer of context.go, Proxy/Errors error.go, Proxy/RealIp realip.go,
--                 Proxy/Headers the type http.Header
--   Proxy/Lifecycle pkg/proxy/proxy.go: Start, startListeners, waitForConfig, StartDummy, the status
--                 handler; Proxy/Listeners has GetCertificate, serve and serveQuic of proxy_http.go,
--                 Proxy/Tcp has proxy_tcp.go
--   Proxy/Closures the closures that the modules return: a constructor for the body of each, with the
--                 variables that it captures
--   Modules/      modules/: for each module its hook, named after the annotation, and the function
--                 run_... for the body of the closure; Modules/Instances has the list of the modules,
--                 Modules/Creators the functions that create them from the configuration
--   Kubernetes    the objects of the Kubernetes API
--   Config/       pkg/config: ParseByteSize, and from the decoded YAML to ControllerConf
--   Controller/   pkg/controller: State for state.go; Converter, Certificates and ProxyConfig for
--                 converter.go; Reconcile for ingress.go and controller.go; Watches for
--                 reconcile.go; Shared for config.go and the updates of the shared resources; Loop for
--                 Init, Run and Reconcile as a step relation
--   Program       cmd/main.go; Program/Readiness has the controller and the proxy together
--   Examples/     the theorems on concrete requests and objects
-- The other files hold the lemmas, each named for what it is about.
--
-- How code becomes definitions. A Go function that returns an error is a function into Result; one
-- that may panic is one into Returns or ends in panicked. A handler takes the request context and
-- gives how it ends and the context then, so that every write to the context is a new context; the
-- context has a trace of the calls to other servers. A Go map is an association list: its order
-- stands for the iteration order of one run. The methods of the controller run under a lock, one
-- after the other, as functions on its state; the two request channels have room for one message
-- and are Booleans. Texts are lists of bytes, an int64 that may overflow is wrapped by to_int64,
-- and a port is taken modulo 2^16. All loops are recursion on a list, without fuel.
--
-- What is a parameter: the network, the parsers and printers of the standard library, the YAML
-- decoder and the template engine (Outside, Services, ConfigLibrary), the API server (Cluster), and
-- the third-party libraries for passwords, websockets, OAuth2, OIDC and JOSE. The only laws that a
-- theorem assumes about them are those of IsLossless in Modules/Oidc/Renewal, of the cookie of a
-- session, and FailsClosed in Modules/Sockets/Session/Turns, of a websocket that is closed. Other
-- libraries that the creators of the modules use are in ModuleLibrary.
--
-- The loop of Start is a run on the list of the events that it receives: configurations, messages
-- of its listeners and signals. The messages that the listeners send are computed apart, from how
-- the servers and the accept loops end. The loop of the controller is a step relation in which the
-- handlers of the other goroutines run between its rounds; what it has sent is a list without a
-- bound, so that nothing is said there of a send that waits for the proxy. Program has the free
-- slots of the channel once the proxy has ended. An upgraded websocket is a run on the turns that
-- its two pumps and its handler take (Modules/Sockets/Session).
--
-- What is not modelled: the copying of bytes in TCP proxies, the OAuth2 configuration of a client,
-- the length of the pause of the shutdown and other durations, logs, the metrics page, what
-- cmd/main.go sets up of libraries, and the support code of the tests.
pub mod Common
pub mod Proxy
pub mod Kubernetes
pub mod Modules
pub mod Config
pub mod Controller
pub mod Program
pub mod Examples
